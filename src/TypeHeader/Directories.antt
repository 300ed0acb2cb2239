-- ===== src/TypeHeader/Directories.antt =====
-- `create_dir` of src/common/_type.h. `dirs` are the paths that `access` finds, and `mkdir` says for which
-- paths the call succeeds.
use web_socket_demo.Prelude.{
  ◌+◌, ◌*◌, ◌≡◌, refl, arith, Bool, true, false, ◌||◌, List, [], ◌∷◌, ◌++◌, Bytes, leb, ◌==◌,
  if◌then◌else◌, if-elim, length, All,
}
use web_socket_demo.Text.{equal}
use web_socket_demo.Text.Maps.{equal_refl}
use web_socket_demo.Trace.Start.{with_slash}

-- The paths up to each '/' behind the first character, where `front` has been passed.
unfoldable pub prefixes : Bytes → Bytes → List Bytes
prefixes front [] = []
prefixes front (c ∷ path) =
    let rest = prefixes (front ++ c ∷ []) path in if c == b'/' then front ∷ rest else rest

abbrev pub all_prefixes : Bytes → List Bytes
all_prefixes [] = []
all_prefixes (c ∷ path) = prefixes (c ∷ []) path

abbrev pub is_dir : Bytes → List Bytes → Bool
is_dir d [] = false
is_dir d (x ∷ dirs) = equal x d || is_dir d dirs

unfoldable pub make_dirs : (Bytes → Bool) → List Bytes → List Bytes → Bool × List Bytes
make_dirs mkdir [] dirs = (true, dirs)
make_dirs mkdir (d ∷ ds) dirs =
    let there = make_dirs mkdir ds dirs in
    let added = make_dirs mkdir ds (d ∷ dirs) in
    if is_dir d dirs then there else if mkdir d then added else (false, dirs)

-- The buffer has 10240 characters; a path is not empty.
unfoldable pub create_dir : (Bytes → Bool) → Bytes → List Bytes → Bool × List Bytes
create_dir mkdir path dirs =
    if leb (1024 * 10) (length path + 1)
    then (false, dirs)
    else make_dirs mkdir (all_prefixes (with_slash path)) dirs

-- Paths that are there stay there.
Keeps : List Bytes → List Bytes → Type 0
Keeps dirs more = (x : Bytes) → is_dir x dirs ≡ true → is_dir x more ≡ true

AreDirs : List Bytes → List Bytes → Type 0
AreDirs ds dirs = All (λ d. is_dir d dirs ≡ true) ds

is_dir-more : (x d : Bytes) (dirs : List Bytes) → is_dir x dirs ≡ true → is_dir x (d ∷ dirs) ≡ true
is_dir-more x d dirs h = ground (arith, h)

is_dir-front : (d : Bytes) (dirs : List Bytes) → is_dir d (d ∷ dirs) ≡ true
is_dir-front d dirs = rw (equal_refl d) refl

make_dirs-Keeps :
    (mkdir : Bytes → Bool) (ds dirs : List Bytes) → Keeps dirs (make_dirs mkdir ds dirs).1
unfolding make_dirs Keeps
make_dirs-Keeps mkdir [] dirs x h = h
make_dirs-Keeps mkdir (d ∷ ds) dirs x h =
    let there = make_dirs-Keeps mkdir ds dirs x h in
    let added = make_dirs-Keeps mkdir ds (d ∷ dirs) x (is_dir-more x d dirs h) in
    if-elim (λ (r : Bool × List Bytes). is_dir x r.1 ≡ true) (is_dir d dirs) (λ _. there)
      (λ _.
        if-elim (λ (r : Bool × List Bytes). is_dir x r.1 ≡ true) (mkdir d) (λ _. added) (λ _. h))

make_dirs-AreDirs :
    (mkdir : Bytes → Bool) (ds dirs : List Bytes)
    → (make_dirs mkdir ds dirs).0 ≡ true
    → AreDirs ds (make_dirs mkdir ds dirs).1
unfolding make_dirs AreDirs Keeps
make_dirs-AreDirs mkdir [] dirs h = tt
make_dirs-AreDirs mkdir (d ∷ ds) dirs h =
    if-elim (λ (r : Bool × List Bytes). r.0 ≡ true → AreDirs (d ∷ ds) r.1) (is_dir d dirs)
      (λ e g. (make_dirs-Keeps mkdir ds dirs d e, make_dirs-AreDirs mkdir ds dirs g))
      (λ _.
        if-elim (λ (r : Bool × List Bytes). r.0 ≡ true → AreDirs (d ∷ ds) r.1) (mkdir d)
          (λ _ g. (
            make_dirs-Keeps mkdir ds (d ∷ dirs) d (is_dir-front d dirs),
            make_dirs-AreDirs mkdir ds (d ∷ dirs) g,
          ))
          (λ _ g. cc))
      h

-- Where `create_dir` gives true, every directory on the way to the path is there, and the path itself.
pub create_dir-AreDirs :
    (mkdir : Bytes → Bool) (path : Bytes) (dirs : List Bytes)
    → (create_dir mkdir path dirs).0 ≡ true
    → All (λ d. is_dir d (create_dir mkdir path dirs).1 ≡ true) (all_prefixes (with_slash path))
unfolding create_dir AreDirs
create_dir-AreDirs mkdir path dirs h =
    if-elim
      (λ (r : Bool × List Bytes).
        r.0 ≡ true → All (λ d. is_dir d r.1 ≡ true) (all_prefixes (with_slash path)))
      (leb (1024 * 10) (length path + 1)) (λ _ g. cc)
      (λ _ g. make_dirs-AreDirs mkdir (all_prefixes (with_slash path)) dirs g) h
