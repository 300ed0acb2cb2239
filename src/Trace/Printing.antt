-- ===== src/Trace/Printing.antt =====
-- What printing to a `CDebugTrace` (src/common/debugtrace.cpp) leaves as it was.
use web_socket_demo.Prelude.{
  ◌≡◌, refl, ap, ◌∙◌, Bool, true, false, List, [], ◌∷◌, none, some, Bytes,
}
use web_socket_demo.Trace.{
  DebugTrace, Argument, char_val, bool_val, int64_val, str_val, streamed, write, print, print_all,
}

-- Nothing but the buffer changes.
write-buffer :
    (b : Bool) (text : Bytes) (d : DebugTrace)
    → write b text d ≡ record d { print_buff = (write b text d).print_buff }
unfolding write
write-buffer false text d = refl
write-buffer true text d = refl

print-buffer :
    (a : Argument) (d : DebugTrace) → print a d ≡ record d { print_buff = (print a d).print_buff }
unfolding print
print-buffer (char_val c) d = write-buffer _ _ d
print-buffer (bool_val b) d = write-buffer _ _ d
print-buffer (int64_val i) d = write-buffer _ _ d
print-buffer (str_val none) d = write-buffer _ _ d
print-buffer (str_val (some s)) d = write-buffer _ _ d
print-buffer (streamed s) d = write-buffer _ _ d

pub print_all-buffer :
    (args : List Argument) (d : DebugTrace)
    → print_all args d ≡ record d { print_buff = (print_all args d).print_buff }
print_all-buffer [] d = refl
print_all-buffer (a ∷ args) d =
    print_all-buffer args (print a d)
    ∙ ap (λ (e : DebugTrace). record e { print_buff = (print_all args (print a d)).print_buff })
        (print-buffer a d)
