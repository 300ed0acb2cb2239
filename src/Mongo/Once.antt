-- ===== src/Mongo/Once.antt =====
-- On the operations of src/common/mongodb_wrapper.cpp that write, where the driver keeps its promises.
use web_socket_demo.Prelude.{
  ◌≡◌, ◌∙◌, Bool, true, false, List, [], ◌∷◌, ◌++◌, Option, none, some, if◌then◌else◌,
}
use web_socket_demo.Mongo.{
  Driver, as_option, is_some, after_check, after_call, with_retry, write_with,
}

-- What is written so far, and what a call of the driver adds to it: one entry where it succeeds, and none
-- where it does not. A check and a reconnection add nothing.
module _ {S D C V W : Type 0} (driver : Driver S D C V) (written : S → List W)
    (checks : (s : S) → written (driver.check_connection s).1 ≡ written s)
    (reconnects : (s : S) → written (driver.reconnect s).1 ≡ written s) where
  -- A call that writes `w` where it succeeds.
  abbrev pub Writes : W → (S → Bool × S) → Type 0
  Writes w call =
      (s : S) → written (call s).1 ≡ (if (call s).0 then written s ++ w ∷ [] else written s)

  abbrev WritesOption : W → Option (Unit {0}) × S → List W → Type 0
  WritesOption w r before = written r.1 ≡ (if is_some driver r.0 then before ++ w ∷ [] else before)

  once-option :
      (w : W) (call : S → Bool × S)
      → Writes w call
      → (s : S) → WritesOption w (as_option driver (call s)) (written s)
  once-option w call h s = by (call s) (h s)
    where
      by :
          (r : Bool × S)
          → written r.1 ≡ (if r.0 then written s ++ w ∷ [] else written s)
          → WritesOption w (as_option driver r) (written s)
      by (true, t) e = e
      by (false, t) e = e

  reconnected :
      (w : W) (call : S → Bool × S) (before : List W)
      → Writes w call
      → (r : Bool × S) → written r.1 ≡ before
      → WritesOption w (if r.0 then as_option driver (call r.1) else (none, r.1)) before
  reconnected w call before h (true, s) e = rw⁻¹ e (once-option w call h s)
  reconnected w call before h (false, s) e = e

  checked :
      (w : W) (call : S → Bool × S) (before : List W)
      → Writes w call
      → (r : Bool × S) → written r.1 ≡ before
      → WritesOption w (after_check driver (λ x. as_option driver (call x)) r) before
  unfolding after_check
  checked w call before h (true, s) e = e
  checked w call before h (false, s) e =
      reconnected w call before h (driver.reconnect s) (reconnects s ∙ e)

  called :
      (w : W) (call : S → Bool × S) (before : List W)
      → Writes w call
      → (r : Option (Unit {0}) × S) → WritesOption w r before
      → WritesOption w (after_call driver (λ x. as_option driver (call x)) r) before
  unfolding after_call
  called w call before h (some a, s) e = e
  called w call before h (none, s) e =
      checked w call before h (driver.check_connection s) (checks s ∙ e)

  -- Where a check of the connection and a reconnection write nothing, of a write that adds its
  -- entry where the driver's call succeeds and nothing where it fails: where the operation gives
  -- true its entry is there once, also after a reconnection, and where it gives false it is not.
  write_with-once :
      (w : W) (call : S → Bool × S) (s : S)
      → Writes w call
      → written (write_with driver call s).1
        ≡ (if (write_with driver call s).0 then written s ++ w ∷ [] else written s)
  unfolding with_retry
  write_with-once w call s h =
      called w call (written s) h (as_option driver (call s)) (once-option w call h s)
