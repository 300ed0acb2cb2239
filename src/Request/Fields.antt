-- ===== src/Request/Fields.antt =====
-- On `try_consume_frame` (src/websocket_master/websocket_request.cpp): the length field, the key and the
-- payload, one by one.
use native.Mathlib.Nat.{pow-suc}
use web_socket_demo.Prelude.{
  ℕ, zero, suc, ◌+◌, ◌*◌, ◌/◌, ◌%◌, ◌^◌, ◌≤◌, ◌<◌, ◌≡◌, refl, ap, ◌∙◌, [], ◌∷◌, ◌++◌, arith, Bytes,
  IsByte, IsBytes, bit_or, bit_or_byte, bit_xor_twice, u64, ◌<<<◌, ◌==◌, if◌then◌else◌, length,
  get_or, length-append, drop-skip, take-length-append, drop-length-append,
}
use web_socket_demo.Frame.{Form, seven, sixteen, sixty_four, be, len7, ext, FormHolds, xor_key}
use web_socket_demo.Protocol.{ws_max_payload_bytes}
use web_socket_demo.Request.{ok, error, Request, ext_loop, field, read_length, unmask, take_payload}

-- The loop over a list.
abbrev horner : ℕ → Bytes → ℕ
horner e [] = e
horner e (b ∷ bs) = horner (u64 (bit_or (e <<< 8) b)) bs

shift_in : (n : ℕ) → n < 2 ^ 64 → u64 (bit_or ((n / 256) <<< 8) (n % 256)) ≡ n
shift_in n h = omega (arith, bit_or_byte (n / 256) (n % 256) (omega arith))

horner-snoc :
    (e : ℕ) (bs : Bytes) (b : ℕ) → horner e (bs ++ b ∷ []) ≡ u64 (bit_or (horner e bs <<< 8) b)
horner-snoc e [] b = refl
horner-snoc e (c ∷ bs) b = horner-snoc (u64 (bit_or (e <<< 8) c)) bs b

horner-be : (k n : ℕ) → n < 2 ^ 64 → n < 256 ^ k → horner 0 (be k n) ≡ n
horner-be zero n h p = omega arith
horner-be (suc k) n h p =
    horner-snoc 0 (be k (n / 256)) (n % 256)
    ∙ rw (horner-be k (n / 256) (omega arith) (omega (arith, pow-suc 256 k))) (shift_in n h)

ext_loop-be :
    (a b n : ℕ) (tail : Bytes) → n < 2 ^ 64 → ext_loop 8 0 0 (a ∷ b ∷ (be 8 n ++ tail)) ≡ n
unfolding ext_loop
ext_loop-be a b n tail h = horner-be 8 n h (omega arith)

pub read_length-ext :
    (a flag n : ℕ) (f : Form) (tail : Bytes)
    → flag < 2
    → FormHolds f n
    → read_length (a ∷ (flag * 128 + len7 f n) ∷ (ext f n ++ tail)) ≡ field n (2 + length (ext f n))
unfolding read_length
read_length-ext a flag n seven tail hf h = ground arith
read_length-ext a flag n sixteen tail hf h = ground arith
read_length-ext a flag n sixty_four tail hf h =
    ground (arith, ext_loop-be a (flag * 128 + 127) n tail)

pub get_or-IsByte : (xs : Bytes) (i : ℕ) → IsBytes xs → IsByte (get_or xs i 0)
get_or-IsByte [] i h = omega arith
get_or-IsByte (x ∷ xs) zero h = h.0
get_or-IsByte (x ∷ xs) (suc i) h = get_or-IsByte xs i h.1

-- Unmasking undoes masking.
pub unmask-xor_key :
    (key : Bytes) (i : ℕ) (xs : Bytes)
    → IsBytes key
    → IsBytes xs
    → unmask key i (xor_key key i xs) ≡ xs
unfolding unmask
unmask-xor_key key i [] hk hx = refl
unmask-xor_key key i (x ∷ xs) hk hx = rw (
  bit_xor_twice x (get_or key (i % 4) 0) hx.0 (get_or-IsByte key (i % 4) hk),
  unmask-xor_key key (i + 1) xs hk hx.1,
)

pub length-xor_key : (key : Bytes) (i : ℕ) (xs : Bytes) → length (xor_key key i xs) ≡ length xs
length-xor_key key i [] = refl
length-xor_key key i (x ∷ xs) = ap suc (length-xor_key key (i + 1) xs)

-- A payload that is all there is cut out between the header and the rest.
pub take_payload-split :
    (r : Request) (h body rest : Bytes)
    → length body ≤ ws_max_payload_bytes
    → take_payload r (h ++ (body ++ rest)) (length body) (length h) ≡ record {
      result = ok;
      request = record r {
        payload = if r.mask == 0 then body else unmask r.masking_key 0 body;
        payload_length = length body;
      };
      buf = rest;
    }
unfolding take_payload
take_payload-split r h body rest fits = ground (
  arith,
  drop-length-append h (body ++ rest),
  take-length-append body rest,
  drop-skip h (body ++ rest) (length body),
  drop-length-append body rest,
  length-append h (body ++ rest),
  length-append body rest,
)

pub take_payload_large :
    (r : Request) (p : Bytes) (n header_len : ℕ)
    → ws_max_payload_bytes < n
    → take_payload r p n header_len ≡ record { result = error; request = r; buf = p }
unfolding take_payload
take_payload_large r p n header_len h = ground arith
