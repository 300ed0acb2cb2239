-- ===== src/Examples/Configs.antt =====
-- The theorems on configuration files at samples.
use web_socket_demo.Prelude.{◌≡◌, arith, List, [], ◌∷◌, some, All}
use web_socket_demo.Text.{codes, equal}
use web_socket_demo.Configure.{strstrip, strip_end, skip_space}
use web_socket_demo.Configure.Reading.{load, get_str_param, next_line, cleared}
use web_socket_demo.Configure.Lines.{Line, blank, heading, entry, IsLine, written}
use web_socket_demo.Configure.Lookup.{first_value, get_str_param-written}
use web_socket_demo.Configure.Bounds.{Ends, load-Ends}
use web_socket_demo.Configure.Buffers.{Within, next_line-Holds}

abbrev settings : List Line
settings =
    heading (codes "log")
    ∷ entry (codes "port") (codes "1")
    ∷ blank
    ∷ heading (codes "db")
    ∷ entry (codes "port") (codes "80; a [b]")
    ∷ entry (codes "user") []
    ∷ []

settings-IsLine : All IsLine settings
unfolding equal strstrip strip_end skip_space
settings-IsLine = ground arith

get_str_param-written_example :
    get_str_param (codes "port") (codes "db") (some (written settings))
    ≡ some (first_value (codes "port") (codes "db") [] settings)
get_str_param-written_example =
    get_str_param-written (codes "port") (codes "db") settings settings-IsLine

load-Ends_example :
    Ends (load (some (codes "a = 1\n[b")))
    × Ends (get_str_param (codes "a") [] (some (codes "a = 1\n[b")))
load-Ends_example = load-Ends (codes "a") [] (some (codes "a = 1\n[b"))

next_line-Holds_example : Within cleared (next_line (codes "a = ") (codes "1\nb = 2\n"))
next_line-Holds_example =
    next_line-Holds (codes "a = ") (codes "1\nb = 2\n") cleared (omega arith)
      (omega arith, omega arith, omega arith)
