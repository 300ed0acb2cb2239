-- ===== src/Configure/Lines.antt =====
-- `iniparser_line` of src/common/Configure.cpp on the lines of a written file.
use web_socket_demo.Prelude.{
  ℕ, ◌+◌, ◌≡◌, ◌≢◌, ◌≤◌, refl, ap, ◌∙◌, arith, Bool, true, false, not, ◌&&◌, List, [], ◌∷◌, ◌++◌,
  none, some, Bytes, ◌==◌, length, All, append_assoc,
}
use web_socket_demo.Text.{codes, equal}
use web_socket_demo.Startup.{is_space}
use web_socket_demo.Configure.{
  line_section, line_value, no_equals, no_comment, is_nil, is_first, is_last, skip_space, strip_end,
  strstrip, scan_set, scan_value, scan_quoted, section_name, value_line, span, iniparser_line,
  unquote, or_else,
}
use web_socket_demo.Configure.Text.{is_last-snoc, strip_end-snoc, strstrip-space, scan_set-front}

-- A section's name.
abbrev pub IsSectionName : Bytes → Type 0
IsSectionName s =
    (is_nil s ≡ false)
    × All (λ c. (c ≢ b']') × (c ≢ b'\n')) s
    × (strstrip s ≡ s)
    × (length s ≤ 1020)

abbrev pub starts_key : Bytes → Bool
starts_key [] = false
starts_key (c ∷ s) = not (is_space c) && not (c == b'#')

abbrev pub IsKey : Bytes → Type 0
IsKey k = (starts_key k ≡ true) × All (λ c. (c ≢ b'=') × (c ≢ b'\n')) k × (strstrip k ≡ k)

abbrev pub IsValue : Bytes → Type 0
IsValue v =
    All (λ c. (c ≢ b'"') × (c ≢ b'\n')) v × (strstrip v ≡ v) × (equal v (codes "''") ≡ false)

pub data Line : Type 0 where
  blank : Line
  heading : Bytes → Line
  entry : Bytes → Bytes → Line

abbrev pub IsLine : Line → Type 0
IsLine blank = Unit
IsLine (heading s) = IsSectionName s
IsLine (entry k v) = IsKey k × IsValue v × (length k + length v ≤ 1017)

abbrev pub text : Line → Bytes
text blank = []
text (heading s) = b'[' ∷ (s ++ b']' ∷ [])
text (entry k v) = k ++ (codes " = \"" ++ (v ++ b'"' ∷ []))

abbrev pub written : List Line → Bytes
written [] = []
written (l ∷ ls) = text l ++ (b'\n' ∷ written ls)

strstrip-snoc :
    (c : ℕ) (s : Bytes) (x : ℕ)
    → is_space c ≡ false
    → is_space x ≡ false
    → strstrip (c ∷ (s ++ x ∷ [])) ≡ c ∷ (s ++ x ∷ [])
unfolding strstrip skip_space
strstrip-snoc c s x hc hx = rw hc (strip_end-snoc (c ∷ s) x hx)

not_bracket :
    (s : Bytes) → All (λ c. (c ≢ b']') × (c ≢ b'\n')) s → All (λ c. not (c == b']') ≡ true) s
not_bracket [] h = tt
not_bracket (c ∷ s) h = (ground arith, not_bracket s h.1)

pub iniparser_line-heading :
    (s section key value : Bytes)
    → IsSectionName s
    → iniparser_line (text (heading s)) section key value
      ≡ record { status = line_section; section = s; key = key; value = value }
unfolding iniparser_line section_name
iniparser_line-heading [] section key value h = absurd cc
iniparser_line-heading (c ∷ s) section key value h =
    rw
      (
        strstrip-snoc b'[' (c ∷ s) b']' refl refl,
        is_last-snoc b']' b']' (b'[' ∷ c ∷ s),
        scan_set-front (λ x. not (x == b']')) c s b']' [] (not_bracket (c ∷ s) h.1) refl,
      )
      (ap (λ n. record { status = line_section; section = n; key = key; value = value }) h.2)

not_equals :
    (k : Bytes)
    → All (λ c. (c ≢ b'=') × (c ≢ b'\n')) k
    → All (λ c. no_equals c ≡ true) (k ++ b' ' ∷ [])
not_equals [] h = (refl, tt)
not_equals (c ∷ k) h = (ground arith, not_equals k h.1)

not_quote :
    (v : Bytes) → All (λ c. (c ≢ b'"') × (c ≢ b'\n')) v → All (λ c. not (c == b'"') ≡ true) v
not_quote [] h = tt
not_quote (c ∷ v) h = (ground arith, not_quote v h.1)

-- What the first conversion takes of an entry.
scan_set-key :
    (k s : Bytes)
    → IsKey k
    → scan_set no_equals (k ++ (b' ' ∷ (b'=' ∷ s))) ≡ some (k ++ b' ' ∷ [], b'=' ∷ s)
scan_set-key [] s h = absurd cc
scan_set-key (a ∷ k) s h =
    let regroup : a ∷ (k ++ (b' ' ∷ (b'=' ∷ s))) ≡ (a ∷ (k ++ b' ' ∷ [])) ++ (b'=' ∷ s) =
      simp append_assoc in
    ap (scan_set no_equals) regroup
    ∙ scan_set-front no_equals a (k ++ b' ' ∷ []) b'=' s (not_equals (a ∷ k) h.1) refl

scan_quoted-entry :
    (k : Bytes) (c : ℕ) (v : Bytes)
    → IsKey k
    → All (λ c. (c ≢ b'"') × (c ≢ b'\n')) (c ∷ v)
    → scan_quoted b'"' (text (entry k (c ∷ v))) ≡ some (k ++ b' ' ∷ [], c ∷ v)
unfolding scan_quoted skip_space
scan_quoted-entry k c v hk hv =
    rw
      (
        scan_set-key k (codes " \"" ++ ((c ∷ v) ++ b'"' ∷ [])) hk,
        scan_set-front (λ x. not (x == b'"')) c v b'"' [] (not_quote (c ∷ v) hv) refl,
      )
      refl

scan-empty :
    (k : Bytes)
    → IsKey k
    → (scan_quoted b'"' (text (entry k [])) ≡ none)
      × (scan_quoted b'\'' (text (entry k [])) ≡ none)
      × (scan_value no_comment (text (entry k [])) ≡ some (k ++ b' ' ∷ [], codes "\"\""))
unfolding scan_quoted skip_space scan_value
scan-empty k hk =
    rw (scan_set-key k (codes " \"\"") hk) (unfold scan_set span in (refl, refl, refl))

starts_key-entry :
    (k : Bytes) (s : Bytes)
    → IsKey k
    → (strstrip (k ++ (codes " = \"" ++ (s ++ b'"' ∷ [])))
        ≡ k ++ (codes " = \"" ++ (s ++ b'"' ∷ [])))
      × (is_first b'#' (k ++ (codes " = \"" ++ (s ++ b'"' ∷ []))) ≡ false)
      × (is_last b']' (k ++ (codes " = \"" ++ (s ++ b'"' ∷ []))) ≡ false)
      × (is_nil (k ++ (codes " = \"" ++ (s ++ b'"' ∷ []))) ≡ false)
starts_key-entry [] s h = absurd cc
starts_key-entry (a ∷ k) s h =
    let regroup : k ++ (codes " = \"" ++ (s ++ b'"' ∷ []))
        ≡ (k ++ (codes " = \"" ++ s)) ++ b'"' ∷ [] =
      simp append_assoc in
    rw regroup (
      strstrip-snoc a (k ++ (codes " = \"" ++ s)) b'"' (ground (arith, h.0)) refl,
      ground (arith, h.0),
      is_last-snoc b']' b'"' (a ∷ (k ++ (codes " = \"" ++ s))),
      refl,
    )

unquote-cons : (c : ℕ) (v : Bytes) → IsValue (c ∷ v) → unquote (strstrip (c ∷ v)) ≡ c ∷ v
unfolding equal
unquote-cons c v h = rw h.1 (ground (arith, h.0.0.0, h.2))

-- Whichever of the three formats takes an entry: the key with a space, and a value that is v once it is stripped.
scan-entry :
    (k v : Bytes)
    → IsKey k
    → IsValue v
    → (w : Bytes) × (or_else (scan_quoted b'"' (text (entry k v))) (
          or_else (scan_quoted b'\'' (text (entry k v))) (scan_value no_comment (text (entry k v))))
        ≡ some (k ++ b' ' ∷ [], w))
      × (unquote (strstrip w) ≡ v)
scan-entry k [] hk hv =
    let (a, b, c) = scan-empty k hk in
    (codes "\"\"", rw (a, b, c) refl, unfold strstrip strip_end skip_space equal in refl)
scan-entry k (c ∷ v) hk hv = (c ∷ v, rw (scan_quoted-entry k c v hk hv.0) refl, unquote-cons c v hv)

pub iniparser_line-entry :
    (k v section key value : Bytes)
    → IsKey k
    → IsValue v
    → iniparser_line (text (entry k v)) section key value
      ≡ record { status = line_value; section = section; key = k; value = v }
unfolding iniparser_line value_line
iniparser_line-entry k v section key value hk hv =
    let (whole, no_mark, no_end, some_text) = starts_key-entry k v hk in
    let (w, found, stripped) = scan-entry k v hk hv in
    let name : strstrip (k ++ b' ' ∷ []) ≡ k = strstrip-space k b' ' refl ∙ hk.2 in
    rw (whole, some_text, no_mark, no_end, found, name, stripped) (ground arith)
