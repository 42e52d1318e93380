-- ===== src/Ports/Examples.antt =====
-- port_allocator.rs: the theorems at concrete inputs.
use remoc.Base.{ℕ, ◌-◌, ◌≡◌, ◌≤◌, ◌<◌, ◌^◌, ◌+◌, ◌∷◌, true, length, arith}
use remoc.Ports.{PortAllocator, done, new_allocator, try_reserve, into_local, is_unknown}
use remoc.Ports.Reserve.{
  Reachable, start, step, reserve, IsWithin, Reachable-IsWithin, into_local-Reachable,
}

abbrev one_reserved : PortAllocator
one_reserved = (try_reserve (new_allocator 2)).0

one_reserved-Reachable : Reachable 2 one_reserved
one_reserved-Reachable = step (new_allocator 2) one_reserved start (reserve (new_allocator 2))

one_reservation : 1 ≤ one_reserved.reserved
unfolding try_reserve
one_reservation = omega arith

few_numbers :
    length one_reserved.local_used
      + length one_reserved.local_pre_allocated
      + length one_reserved.quarantined_set
    < 2 ^ 32
unfolding try_reserve
few_numbers = omega arith

Reachable-IsWithin_example : IsWithin 2 one_reserved
Reachable-IsWithin_example = Reachable-IsWithin 2 one_reserved one_reserved-Reachable

into_local-Reachable_example :
    (number : ℕ) × (into_local one_reserved
      ≡ done
          (record one_reserved {
            reserved = one_reserved.reserved - 1;
            next = number;
            local_used = number ∷ one_reserved.local_used;
          })
          number)
    × (is_unknown one_reserved number ≡ true)
into_local-Reachable_example =
    into_local-Reachable 2 one_reserved one_reserved-Reachable one_reservation few_numbers
