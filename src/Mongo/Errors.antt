-- ===== src/Mongo/Errors.antt =====
-- `mongodbStrerror` and `errorInfo` of src/common/mongodb_wrapper.cpp. The errors are those of the driver's mongo.h, one constructor each.
use web_socket_demo.Prelude.{ℕ, ◌++◌, Bytes}
use web_socket_demo.Text.{codes}
use web_socket_demo.StringCommon.{print_digits}

pub data MongoError : Type 0 where
  conn_success conn_no_socket conn_fail conn_addr_fail conn_not_master conn_bad_set_name
        conn_no_primary :
      MongoError
  io_error socket_error read_size_error command_failed write_error : MongoError
  ns_invalid bson_invalid bson_not_finished bson_too_large write_concern_invalid : MongoError

unfoldable pub mongodb_strerror : MongoError → Bytes
mongodb_strerror conn_success = codes "Connection success"
mongodb_strerror conn_no_socket = codes "Could not create a socket"
mongodb_strerror conn_fail = codes "An error occured while calling connect()"
mongodb_strerror conn_addr_fail = codes "An error occured while calling getaddrinfo()"
mongodb_strerror conn_not_master = codes "Warning: connected to a non-master node (read-only)"
mongodb_strerror conn_bad_set_name = codes "Given rs name doesn't match this replica set"
mongodb_strerror conn_no_primary = codes "Can't find primary in replica set. Connection closed"
mongodb_strerror io_error = codes "An error occurred while reading or writing on the socket"
mongodb_strerror socket_error = codes "Other socket error"
mongodb_strerror read_size_error = codes "The response is not the expected length"
mongodb_strerror command_failed = codes "The command returned with 'ok' value of 0"
mongodb_strerror write_error = codes "Write with given write_concern returned an error"
mongodb_strerror ns_invalid = codes "The name for the ns (database or collection) is invalid"
mongodb_strerror bson_invalid = codes "BSON not valid for the specified op"
mongodb_strerror bson_not_finished = codes "BSON object has not been finished"
mongodb_strerror bson_too_large = codes "BSON object exceeds max BSON size"
mongodb_strerror write_concern_invalid = codes "Supplied write concern object is invalid"

-- The number that an error is printed as.
abbrev pub number : MongoError → ℕ
number conn_success = 0
number conn_no_socket = 1
number conn_fail = 2
number conn_addr_fail = 3
number conn_not_master = 4
number conn_bad_set_name = 5
number conn_no_primary = 6
number io_error = 7
number socket_error = 8
number read_size_error = 9
number command_failed = 10
number write_error = 11
number ns_invalid = 12
number bson_invalid = 13
number bson_not_finished = 14
number bson_too_large = 15
number write_concern_invalid = 16

-- The fields of the driver's connection that are printed; the two texts of its numbers are as
-- std::stringstream writes an int.
pub record MongoState : Type 0 where
  pub err : MongoError
  pub errcode : Bytes
  pub errstr : Bytes
  pub lasterrcode : Bytes
  pub lasterrstr : Bytes

unfoldable pub error_info : MongoState → Bytes
error_info m =
    codes "err:["
    ++ (print_digits 10 (number m.err)
        ++ (codes "]"
            ++ (mongodb_strerror m.err
                ++ (codes ",errcode:"
                    ++ (m.errcode
                        ++ (codes ",errstr:"
                            ++ (m.errstr
                                ++ (codes ",lasterrcode:"
                                    ++ (m.lasterrcode
                                        ++ (codes ",lasterrstr:" ++ m.lasterrstr))))))))))
