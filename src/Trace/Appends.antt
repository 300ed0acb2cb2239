-- ===== src/Trace/Appends.antt =====
-- The macro TRACE of src/common/debugtrace.h: what it makes of the files and the lock.
use mathlib.Core.Option.{none-ne-some}
use web_socket_demo.Prelude.{
  ℕ, ◌%◌, ◌^◌, ◌≤◌, ◌≡◌, refl, sym, ap, ◌∙◌, arith, Bool, true, false, List, [], ◌∷◌, ◌++◌, Option,
  none, some, Bytes, ltb, if◌then◌else◌, length, Bool-cases, inl, inr, ◌⊎◌, if-elim,
}
use web_socket_demo.Text.{equal, c_str, HeaderMap, insert}
use web_socket_demo.Text.Maps.{equal_refl, equal_sound, lookup-insert}
use web_socket_demo.Trace.{
  DebugTrace, is_set, Argument, streamed, print_all, Clock, prefix_of, begin_trace, can_trace, lock,
}
use web_socket_demo.Trace.Files.{
  World, content, fopen, set_log_file_name, opened, rotated, appended, to_file, to_log, end_trace,
  trace_macro,
}
use web_socket_demo.Trace.Printing.{print_all-buffer}

content-insert :
    (k j v : Bytes) (m : HeaderMap)
    → content k (insert j v m) ≡ (if equal j k then v else content k m)
content-insert k j v m = ground (arith, lookup-insert k j v m)

-- The files that an open or a rotation leaves, the lock, and the open file.
record IsReady (w r : World) : Type 0 where
  name : Bytes
  file : r.trace.trace_file ≡ some name
  same : (x : Bytes) → content x r.files ≡ content x w.files
  buffer : r.trace.print_buff ≡ w.trace.print_buff
  held : r.trace.depth ≡ w.trace.depth

fopen-IsReady :
    (openable : Bytes → Bool) (name : Bytes) (w : World)
    → openable name ≡ true
    → IsReady w (fopen openable name w)
unfolding fopen
fopen-IsReady openable name w h = rw h (record {
  name = name;
  file = refl;
  same = λ x.
      content-insert x name (content name w.files) w.files ∙ kept x (Bool-cases (equal name x));
  buffer = refl;
  held = refl;
})
  where
    kept :
        (x : Bytes)
        → (equal name x ≡ true) ⊎ (equal name x ≡ false)
        → (if equal name x then content name w.files else content x w.files) ≡ content x w.files
    kept x (inl e) = rw e (ap (λ n. content n w.files) (equal_sound name x e))
    kept x (inr e) = rw e refl

module _ (openable : Bytes → Bool) (t : Clock)
    (always : (name : Bytes) → openable name ≡ true) where
  opened-IsReady :
      (w : World) (o : Option Bytes) → w.trace.trace_file ≡ o → IsReady w (opened openable w o)
  opened-IsReady w none e = fopen-IsReady openable w.trace.log_file_name w (always _)
  opened-IsReady w (some name) e = record {
    name = name;
    file = e;
    same = λ x. refl;
    buffer = refl;
    held = refl;
  }

  rotated-IsReady :
      (w : World) (name : Bytes)
      → w.trace.trace_file ≡ some name
      → IsReady w (rotated openable t w (some name))
  unfolding rotated set_log_file_name
  rotated-IsReady w name e =
      if-elim (IsReady w) (ltb w.trace.log_file_size (length (content name w.files) % 2 ^ 32))
        (λ _.
          let r =
            fopen-IsReady openable _
              (record w { trace = set_log_file_name t (some w.trace.log_file_name_pre) w.trace })
              (always _) in
          record { name = r.name; file = r.file; same = r.same; buffer = r.buffer; held = r.held })
        (λ _. record { name = name; file = e; same = λ x. refl; buffer = refl; held = refl })

  -- The file that has the line at its end, the others as they were, and the lock.
  both-IsReady :
      (w : World)
      → IsReady w (
          rotated openable t
            (opened openable w w.trace.trace_file)
            (opened openable w w.trace.trace_file).trace.trace_file)
  both-IsReady w =
      let o : World = opened openable w w.trace.trace_file in
      let a : IsReady w o = opened-IsReady w w.trace.trace_file refl in
      let b : IsReady o (rotated openable t o (some a.name)) = rotated-IsReady o a.name a.file in
      rw a.file (record {
        name = b.name;
        file = b.file;
        same = λ x. b.same x ∙ a.same x;
        buffer = b.buffer ∙ a.buffer;
        held = b.held ∙ a.held;
      })

-- The file that gets the line, what it holds then, and what all others hold; the lock and the count of its holders.
pub record IsAppended (w r : World) (line : Bytes) : Type 0 where
  pub name : Bytes
  pub file : r.trace.trace_file ≡ some name
  pub grown : content name r.files ≡ content name w.files ++ line
  pub others : (x : Bytes) → equal name x ≡ false → content x r.files ≡ content x w.files
  pub held : r.trace.depth ≡ w.trace.depth

appended-IsAppended :
    (w r : World) (o : Option Bytes)
    → IsReady w r
    → r.trace.trace_file ≡ o
    → IsAppended w (appended r o) (c_str w.trace.print_buff)
unfolding appended
appended-IsAppended w r none h e = absurd (none-ne-some h.name (sym e ∙ h.file))
appended-IsAppended w r (some name) h e = record {
  name = name;
  file = e;
  grown = content-insert name name _ r.files ∙ rw (equal_refl name, h.same name, h.buffer) refl;
  others = λ x f. content-insert x name _ r.files ∙ rw f (h.same x);
  held = h.held;
}

to_file-IsAppended :
    (openable : Bytes → Bool) (t : Clock) (w : World)
    → ((name : Bytes) → openable name ≡ true)
    → IsAppended w (to_file openable t w) (c_str w.trace.print_buff)
unfolding to_file
to_file-IsAppended openable t w always =
    appended-IsAppended w _ _ (both-IsReady openable t always w) refl

-- With AppendToFile set and a name for the file.
abbrev pub WritesFile : DebugTrace → Type 0
WritesFile d = (is_set 3 d.trace_options ≡ true) × (2 ≤ length d.log_file_name)

to_log-IsAppended :
    (openable : Bytes → Bool) (t : Clock) (w : World)
    → ((name : Bytes) → openable name ≡ true)
    → WritesFile w.trace
    → IsAppended w (to_log openable t w) (c_str w.trace.print_buff)
unfolding to_log
to_log-IsAppended openable t w always h =
    let long : ltb 1 (length w.trace.log_file_name) ≡ true = ground (arith, h.1) in
    rw (h.0, long) (to_file-IsAppended openable t w always)

end_trace-IsAppended :
    (openable : Bytes → Bool) (t : Clock) (w : World)
    → ((name : Bytes) → openable name ≡ true)
    → WritesFile w.trace
    → IsAppended w (end_trace openable t w) (c_str w.trace.print_buff)
unfolding end_trace
end_trace-IsAppended openable t w always h =
    if-elim (λ c. IsAppended w (to_log openable t c) (c_str w.trace.print_buff))
      (is_set 4 w.trace.trace_options)
      (λ _.
        let c : World = record w { console = w.console ++ c_str w.trace.print_buff } in
        let a : IsAppended c (to_log openable t c) (c_str w.trace.print_buff) =
          to_log-IsAppended openable t c always h in
        record { name = a.name; file = a.file; grown = a.grown; others = a.others; held = a.held })
      (λ _. to_log-IsAppended openable t w always h)

-- The buffer when a line is complete.
abbrev pub line_of : Clock → ℕ → Bytes → ℕ → List Argument → DebugTrace → DebugTrace
line_of t level src_file src_line arguments d =
    print_all (arguments ++ streamed (b'\n' ∷ []) ∷ [])
      (begin_trace t level src_file src_line (lock d))

line_of-buffer :
    (t : Clock) (level : ℕ) (src_file : Bytes) (src_line : ℕ) (arguments : List Argument)
    (d : DebugTrace)
    → line_of t level src_file src_line arguments d
      ≡ record (lock d) { print_buff = (line_of t level src_file src_line arguments d).print_buff }
unfolding begin_trace
line_of-buffer t level src_file src_line arguments d =
    print_all-buffer (arguments ++ streamed (b'\n' ∷ []) ∷ [])
      (begin_trace t level src_file src_line (lock d))
    ∙ ap
        (λ (e : DebugTrace). record e {
          print_buff = (line_of t level src_file src_line arguments d).print_buff;
        })
        (print_all-buffer (prefix_of d.trace_options t level src_file src_line)
          (record (lock d) { print_buff = [] }))

-- Where the level lets it through, the file is asked for and has a name of two characters or more,
-- and every file can be opened, TRACE puts its line, up to the first NUL, at the end of one file, which is the one it leaves open, changes what no
-- other file holds, and gives the critical section back: also where the file was not open, and
-- where the file is too large and another one is made.
pub trace_macro-IsAppended :
    (openable : Bytes → Bool) (t : Clock) (level : ℕ) (src_file : Bytes) (src_line : ℕ)
    (arguments : List Argument) (w : World)
    → ((name : Bytes) → openable name ≡ true)
    → can_trace level w.trace ≡ true
    → WritesFile w.trace
    → IsAppended w
        (trace_macro openable t level src_file src_line arguments w)
        (c_str (line_of t level src_file src_line arguments w.trace).print_buff)
unfolding trace_macro
trace_macro-IsAppended openable t level src_file src_line arguments w always can h =
    let d : DebugTrace = line_of t level src_file src_line arguments w.trace in
    let e : d ≡ record (lock w.trace) { print_buff = d.print_buff } =
      line_of-buffer t level src_file src_line arguments w.trace in
    let set : WritesFile d = (
      ap (λ (x : DebugTrace). is_set 3 x.trace_options) e ∙ h.0,
      omega (arith, h.1, ap (λ (x : DebugTrace). length x.log_file_name) e),
    ) in
    let a = end_trace-IsAppended openable t (record w { trace = d }) always set in
    rw can (record {
      name = a.name;
      file = a.file;
      grown = a.grown;
      others = a.others;
      held = omega (arith, a.held, ap (λ (x : DebugTrace). x.depth) e);
    })
