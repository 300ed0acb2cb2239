-- ===== src/Session/Cases.antt =====
-- Case rules for the branches of the methods of src/websocket_master/websocket_handler.cpp.
use web_socket_demo.Prelude.{
  ℕ, ◌≡◌, refl, Bool, true, false, Option, none, some, Bytes, ◌==◌, if◌then◌else◌,
}
use web_socket_demo.Protocol.{
  fin_msg_end, text_data, connect_close, ping_pack, pang_pack, need_not_mask,
}
use web_socket_demo.Request.{Request, get_msg, get_msg_length, get_msg_opcode}
use web_socket_demo.Respond.{pack_data}
use web_socket_demo.Handler.{Handler, Env}
use web_socket_demo.Network.{Network, queue_close, queue_send, broadcast_ws_binary}
use web_socket_demo.Session.{on_object, on_packed, handle_one_frame}

-- To follow a branch on the object that is there.
pub at_object {ℓ} :
    {A : Type ℓ} (Q : A → Type 0) (o : Option Handler) (a : A) (f : Handler → A)
    → Q a
    → ((h : Handler) → o ≡ some h → Q (f h))
    → Q (on_object o a f)
at_object Q none a f q k = q
at_object Q (some h) a f q k = k h refl

module _ (P : Network → Type 0) where
  pub either : (b : Bool) {n m : Network} → P n → P m → P (if b then n else m)
  either true p q = p
  either false p q = q

  at_packed :
      (o : Option Bytes) (n : Network) (f : Bytes → Network)
      → P n
      → ((out : Bytes) → P (f out))
      → P (on_packed o n f)
  at_packed none n f p k = p
  at_packed (some out) n f p k = k out

  pub handle_one_frame_cases :
      (env : Env) (n : Network) (fd : ℕ) (q : Request)
      → P n
      → P (queue_close n fd)
      → ((out : Bytes) → P (queue_send n fd out))
      → ((out : Bytes) → P (broadcast_ws_binary (queue_send n fd out) fd out))
      → P (handle_one_frame env n fd q)
  unfolding handle_one_frame
  handle_one_frame_cases env n fd q same closes sends shares =
      let pack = λ (opcode : ℕ).
        pack_data env.malloc (get_msg q) (get_msg_length q) fin_msg_end opcode need_not_mask in
      either (get_msg_opcode q == text_data) (at_packed (pack text_data) n _ same shares) (
        either (get_msg_opcode q == connect_close) closes
          (either (get_msg_opcode q == ping_pack) (at_packed (pack pang_pack) n _ same sends) same))
