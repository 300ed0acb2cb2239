-- ===== src/Text/Maps.antt =====
-- On the header map of src/websocket_master/websocket_handler.h: what a look-up gives after insertions.
use web_socket_demo.Prelude.{
  ◌≡◌, inl, inr, refl, sym, ap, ◌∙◌, arith, true, false, [], ◌∷◌, ◌++◌, some, Bytes, if◌then◌else◌,
  Bool-cases, All, ◌≢◌,
}
use web_socket_demo.Text.{equal, c_str, HeaderMap, lookup, insert, index}

pub equal_refl : (xs : Bytes) → equal xs xs ≡ true
unfolding equal
equal_refl [] = refl
equal_refl (x ∷ xs) = ground (arith, equal_refl xs)

pub equal_sound : (xs ys : Bytes) → equal xs ys ≡ true → xs ≡ ys
unfolding equal
equal_sound [] [] e = refl
equal_sound [] (y ∷ ys) e = cc
equal_sound (x ∷ xs) [] e = cc
equal_sound (x ∷ xs) (y ∷ ys) e = ground (arith, equal_sound xs ys)

equal_apart : (i j k : Bytes) → equal i j ≡ false → equal i k ≡ true → equal j k ≡ false
equal_apart i j k e f = elim (Bool-cases (equal j k)) [
  | inl g ↦
      let s : i ≡ j = equal_sound i k f ∙ sym (equal_sound j k g) in
      let t : equal i j ≡ true = ap (equal i) (sym s) ∙ equal_refl i in cc
  | inr g ↦ g
]

pub lookup-insert :
    (k j v : Bytes) (m : HeaderMap)
    → lookup k (insert j v m) ≡ (if equal j k then some v else lookup k m)
unfolding lookup insert
lookup-insert k j v [] = refl
lookup-insert k j v ((i, w) ∷ m) = elim (Bool-cases (equal i j)) [
  | inl e ↦ let same : i ≡ j = equal_sound i j e in rw (e, same) (ground arith)
  | inr e ↦ elim (Bool-cases (equal i k)) [
    | inl f ↦
        let same : i ≡ k = equal_sound i k f in
        let other : equal j k ≡ false = equal_apart i j k e f in ground (arith, f, e, other)
    | inr f ↦ ground (arith, f, e, lookup-insert k j v m)
  ]
]

-- A C string with no NUL in it.
abbrev pub NoNul : Bytes → Type 0
NoNul = All (λ c. c ≢ 0)

pub c_str-NoNul : (xs ys : Bytes) → NoNul xs → c_str (xs ++ ys) ≡ xs ++ c_str ys
unfolding c_str
c_str-NoNul [] ys h = refl
c_str-NoNul (x ∷ xs) ys h = ground (arith, c_str-NoNul xs ys h.1)

pub index_found : (k v : Bytes) (m : HeaderMap) → lookup k m ≡ some v → index k m ≡ (v, m)
unfolding index
index_found k v m e = ground (arith, e)
