-- ===== src/Mongo.antt =====
-- src/common/mongodb_wrapper.h and src/common/mongodb_wrapper.cpp: a connection over the MongoDB driver. The driver, a
-- copy of another project's library, is the record `Driver`.
pub mod Once
pub mod Errors
use web_socket_demo.Prelude.{ℕ, Bool, true, false, not, Option, none, some, Bytes, if◌then◌else◌}

-- `S` is the state of the driver with its connection, `D` a bson document, `C` a cursor and `V` a value in a
-- document. True is MONGO_OK for `check_connection`, `client` and the writes, and all but MONGO_ERROR for
-- `reconnect`; none is a NULL cursor, and a count of MONGO_ERROR.
pub record Driver (S D C V : Type 0) : Type 0 where
  pub client : Bytes → ℕ → S → Bool × S
  pub insert : Bytes → D → S → Bool × S
  pub remove : Bytes → D → S → Bool × S
  pub update : Bytes → D → D → S → Bool × S
  pub find : Bytes → D → ℕ → ℕ → S → Option C × S
  pub count : Bytes → Bytes → D → S → Option ℕ × S
  pub check_connection : S → Bool × S
  pub reconnect : S → Bool × S
  pub cursor_next : C → S → Bool × C × S
  pub seen : C → ℕ
  pub field : C → Bytes → Option V

-- CMongodbConnection, with the state of its driver.
pub record Connection (S : Type 0) : Type 0 where
  pub addr : Bytes
  pub port : ℕ
  pub mongo : S

module _ {S D C V : Type 0} (driver : Driver S D C V) where
  open driver use {
    client, insert, remove, update, find, count, check_connection, reconnect, cursor_next, seen,
    field,
  }

  abbrev pub set_mongodb_addr_and_port : Bytes → ℕ → Connection S → Connection S
  set_mongodb_addr_and_port addr port c = record c { addr = addr; port = port }

  abbrev pub connect : Connection S → Bool × Connection S
  connect c = let r = client c.addr c.port c.mongo in (r.0, record c { mongo = r.1 })

  -- What the five operations do with a call: after a failure on a closed connection, and a reconnection, the call is
  -- made once more. None is failure.
  unfoldable pub after_check : {A : Type 0} → (S → Option A × S) → Bool × S → Option A × S
  after_check call (true, s) = (none, s)
  after_check call (false, s) = let r = reconnect s in if r.0 then call r.1 else (none, r.1)

  unfoldable pub after_call : {A : Type 0} → (S → Option A × S) → Option A × S → Option A × S
  after_call call (some a, s) = (some a, s)
  after_call call (none, s) = after_check call (check_connection s)

  unfoldable pub with_retry : {A : Type 0} → (S → Option A × S) → S → Option A × S
  with_retry call s = after_call call (call s)

  abbrev pub as_option : Bool × S → Option (Unit {0}) × S
  as_option (true, s) = (some tt, s)
  as_option (false, s) = (none, s)

  abbrev pub is_some : {A : Type 0} → Option A → Bool
  is_some none = false
  is_some (some a) = true

  abbrev pub write_with : (S → Bool × S) → S → Bool × S
  write_with call s = let r = with_retry (λ x. as_option (call x)) s in (is_some r.0, r.1)

  abbrev pub mongodb_insert : Bytes → D → S → Bool × S
  mongodb_insert ns document s = write_with (insert ns document) s

  abbrev pub mongodb_delete : Bytes → D → S → Bool × S
  mongodb_delete ns document s = write_with (remove ns document) s

  -- With MONGO_UPDATE_UPSERT.
  abbrev pub mongodb_update : Bytes → D → D → S → Bool × S
  mongodb_update ns cond' op s = write_with (update ns cond' op) s

  -- The result holds the cursor.
  abbrev pub mongodb_find : Bytes → D → ℕ → ℕ → S → Option C × S
  mongodb_find ns query limit skip s = with_retry (find ns query limit skip) s

  abbrev pub mongodb_count : Bytes → Bytes → D → S → Option ℕ × S
  mongodb_count db coll query s = with_retry (count db coll query) s

  -- A field of the row, by what it is read as; a missing one gives the type's zero.
  abbrev pub get_field : {A : Type 0} → A → (V → A) → C → Bytes → A
  get_field zero' read cursor index = elim (field cursor index) [ none ↦ zero' | some v ↦ read v ]

  abbrev pub has_field : C → Bytes → Bool
  has_field cursor index = is_some (field cursor index)

  abbrev pub get_num_rows : C → ℕ
  get_num_rows cursor = seen cursor

  abbrev pub fetch_row : C → S → Bool × C × S
  fetch_row cursor s = cursor_next cursor s
