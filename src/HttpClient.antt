-- ===== src/HttpClient.antt =====
-- CHttpclient of src/common/HttpClient.{h,cpp}: the encoding of URLs, their parameters, the request and
-- the exchange with the server. All of its methods are static.
pub mod UrlCode
pub mod Params
pub mod Form
pub mod Messages
pub mod Exchange
pub mod Iconv
