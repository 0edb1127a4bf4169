-- ===== src/Pool/Tests.antt =====
-- The pool at concrete sizes, after tests/websocketcpp_memory_pool_test.cpp.
use web_socket_cpp.Base.{[], ◌∷◌, none, some, ◌≡◌, refl, arith}
use web_socket_cpp.Pool.{MemoryPool, place, allocate, free}
use web_socket_cpp.Pool.Invariant.{IsValid}
use web_socket_cpp.Pool.Placement.{Allocation, allocate-Allocation}
use web_socket_cpp.Pool.Release.{free-allocate, allocate-IsValid}

-- A gap of 8 bytes at 4, and 10 bytes behind 22.
abbrev gapped : MemoryPool
gapped = record {
  total_size = 32;
  used_size = 14;
  regions = record { offset = 0; size = 4 } ∷ record { offset = 12; size = 10 } ∷ [];
}

gapped-IsValid : IsValid gapped
gapped-IsValid = record { fits = omega arith; ordered = omega arith; counted = refl }

first_fit : (allocate gapped 8).1 ≡ some 4
unfolding allocate place
first_fit = refl

too_large : (allocate gapped 11).1 ≡ none
unfolding allocate place
too_large = refl

allocate-Allocation_example : Allocation gapped 9 (allocate gapped 9)
allocate-Allocation_example = allocate-Allocation gapped 9 gapped-IsValid (omega arith)

allocate-IsValid_example : IsValid (allocate gapped 9).0
allocate-IsValid_example = allocate-IsValid gapped 9 gapped-IsValid

free-allocate_example : free (allocate gapped 8).0 (allocate gapped 8).1 ≡ gapped
free-allocate_example = free-allocate gapped 8 gapped-IsValid
