-- ===== src/Text/Find.antt =====
-- On std::string::find.
use web_socket_demo.Prelude.{
  ℕ, ◌≡◌, ◌≢◌, refl, arith, [], ◌∷◌, ◌++◌, none, some, Bytes, length, All, true, ◌+◌, ◌≤◌,
  Bool-cases, Option-cases, inl, inr,
}
use web_socket_demo.Text.{starts_with, find}

-- A character that a text has not is found behind it.
pub find-first :
    (c : ℕ) (l s : Bytes) → All (λ x. x ≢ c) l → find (c ∷ []) (l ++ (c ∷ s)) ≡ some (length l)
unfolding find starts_with
find-first c [] s h = ground arith
find-first c (x ∷ l) s h = ground (arith, find-first c l s h.1)

pub find-not_in : (c : ℕ) (l : Bytes) → All (λ x. x ≢ c) l → find (c ∷ []) l ≡ none
unfolding find starts_with
find-not_in c [] h = refl
find-not_in c (x ∷ l) h = ground (arith, find-not_in c l h.1)

starts_with-within :
    (pat s more : Bytes) → length pat ≤ length s → starts_with pat (s ++ more) ≡ starts_with pat s
unfolding starts_with
starts_with-within [] s more h = refl
starts_with-within (c ∷ pat) [] more h = absurd (omega arith)
starts_with-within (c ∷ pat) (x ∷ s) more h =
    ground (arith, starts_with-within pat s more (omega arith))

starts_with-length : (pat s : Bytes) → starts_with pat s ≡ true → length pat ≤ length s
unfolding starts_with
starts_with-length [] s h = omega arith
starts_with-length (c ∷ pat) [] h = absurd (ground arith)
starts_with-length (c ∷ pat) (x ∷ s) h = ground (arith, starts_with-length pat s)

-- What is found lies within the text.
pub find-length : (pat s : Bytes) (pos : ℕ) → find pat s ≡ some pos → pos + length pat ≤ length s
unfolding find
find-length pat [] pos h = absurd (ground arith)
find-length pat (x ∷ s) pos h = elim (Bool-cases (starts_with pat (x ∷ s))) [
  | inl e ↦ ground (arith, e, starts_with-length pat (x ∷ s) e)
  | inr e ↦ elim (Option-cases (find pat s)) [
    | inl f ↦ absurd (ground (arith, e, f))
    | inr (p, f) ↦ ground (arith, e, f, find-length pat s p f)
  ]
]

-- So it is found there too where more text follows.
pub find-append :
    (pat s more : Bytes) (pos : ℕ) → find pat s ≡ some pos → find pat (s ++ more) ≡ some pos
unfolding find
find-append pat [] more pos h = absurd (ground arith)
find-append pat (x ∷ s) more pos h =
    let long : pos + length pat ≤ length (x ∷ s) = find-length pat (x ∷ s) pos h in
    let same : starts_with pat (x ∷ (s ++ more)) ≡ starts_with pat (x ∷ s) =
      starts_with-within pat (x ∷ s) more (omega arith) in
    elim (Bool-cases (starts_with pat (x ∷ s))) [
      | inl e ↦ ground (arith, e, same)
      | inr e ↦ elim (Option-cases (find pat s)) [
        | inl f ↦ absurd (ground (arith, e, f))
        | inr (p, f) ↦ ground (arith, e, f, same, find-append pat s more p f)
      ]
    ]
