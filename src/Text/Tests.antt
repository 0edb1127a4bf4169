-- ===== src/Text/Tests.antt =====
-- Searches and comparisons at concrete texts.
use web_socket_cpp.Base.{◌≡◌, refl, [], ◌∷◌, drop, arith, codes}
use web_socket_cpp.Text.Compare.{contains, trim}
use web_socket_cpp.Text.Search.{search_position, split, scan, compare_at, size_max, ranges, found}
use web_socket_cpp.Text.Search.First.{First, search_position-First}

search_position-First_example :
    First
      (codes "cd")
      (drop 1 (codes "abcdcd"))
      1
      (search_position (codes "abcdcd") (codes "cd") 1 size_max)
search_position-First_example =
    search_position-First (codes "abcdcd") (codes "cd") 1 (omega arith) (omega arith) (omega arith)
      (omega arith)

second_half : search_position (codes "abcdcd") (codes "cd") 3 size_max ≡ found 4
unfolding search_position scan compare_at
second_half = refl

three_parts :
    split (codes "GET / HTTP/1.1\r\n") (codes " ") 0 14
    ≡ ranges (
        record { start = 0; end = 2 }
        ∷ record { start = 4; end = 4 }
        ∷ record { start = 6; end = 14 }
        ∷ [])
unfolding split search_position scan compare_at
three_parts = refl

trimmed : trim (codes "  a b \t") ≡ codes "a b"
unfolding trim contains
trimmed = refl
