-- ===== src/Socket/Server/Update.antt =====
-- A step that changes one slot, the pool and the memory.
use web_socket_cpp.Base.{
  ℕ, ◌+◌, ◌≤◌, ◌<◌, ◌≢◌, List, ◌++◌, map, Option, ◌≡◌, sym, ap, ap₂, ◌∙◌, arith, inl, inr,
  append_assoc, append-nil, Bool-cases, length, ◌==◌,
}
use web_socket_cpp.Pool.{MemoryPool}
use web_socket_cpp.Pool.Invariant.{IsValid}
use web_socket_cpp.Socket.Memory.{Memory}
use web_socket_cpp.Socket.Server.{
  Connection, new_connection, ServerSocket, Event, buffer_size, slot, set_slot,
}
use web_socket_cpp.Socket.Server.Slots.{sum_of-set, get_or-set_same, get_or-set_other}
use web_socket_cpp.Socket.Server.Counting.{regions_at}
use web_socket_cpp.Socket.Server.Invariant.{
  pending, count_in, IsSlot, meaning, given, told, waiting, owned, IsConsistent, given-append,
  told-append, at_input, at_output, given-at_input_same, given-at_input_other, told-at_output_same,
  told-at_output_other,
}

module _ (k : ℕ) (conn : Connection) (pool : MemoryPool) (memory : Memory) (come went : List Event)
    (server : ServerSocket) where
  abbrev pub after : ServerSocket
  after = set_slot k conn (record server { pool = pool; memory = memory })

  -- What the step must show of its slot.
  pub record IsUpdate : Type 0 where
    pub valid : IsValid pool
    pub fresh : IsSlot k conn
    pub counted :
        (q : ℕ)
        → count_in q (pending conn) + regions_at buffer_size q server.pool.regions
          ≤ regions_at buffer_size q pool.regions + count_in q (pending (slot server k))
    pub kept : (i : ℕ) → map (meaning memory) (pending (slot server i)) ≡ waiting server i
    pub moved : waiting server k ++ come ≡ went ++ map (meaning memory) (pending conn)

  module _ (inside : k < length server.connections) (u : IsUpdate) {inputs : List (ℕ × Event)}
      {outputs : List (Option ℕ × Event)} (sound : IsConsistent server inputs outputs) where
    after-buffers :
        (q : ℕ) → owned q after.connections ≤ regions_at buffer_size q after.pool.regions
    after-buffers q = omega (
      arith,
      sum_of-set (λ (c : Connection). count_in q (pending c)) server.connections k conn
          new_connection inside,
      u.counted q,
      sound.buffers q,
    )

    after-slots : (i : ℕ) → IsSlot i (slot after i)
    after-slots i = elim (Bool-cases (k == i)) [
      | inl same ↦
          let e : k ≡ i = ground arith in
          rw (sym e) (rw (get_or-set_same server.connections k conn new_connection inside) u.fresh)
      | inr other ↦
          rw (get_or-set_other server.connections k i conn new_connection (ground arith))
            (sound.slots i)
    ]

    order_same :
        given k (inputs ++ at_input k come)
        ≡ told k (outputs ++ at_output k went) ++ map (meaning memory) (pending conn)
    order_same =
        given-append k inputs (at_input k come)
        ∙ ap₂ ◌++◌ (sound.order k) (given-at_input_same k come)
        ∙ append_assoc (told k outputs) (waiting server k) come
        ∙ ap (λ (events : List Event). told k outputs ++ events) u.moved
        ∙ sym (append_assoc (told k outputs) went (map (meaning memory) (pending conn)))
        ∙ ap (λ (events : List Event). events ++ map (meaning memory) (pending conn))
            (ap (λ (events : List Event). told k outputs ++ events)
                (sym (told-at_output_same k went))
              ∙ sym (told-append k outputs (at_output k went)))

    order_other :
        (i : ℕ)
        → k ≢ i
        → given i (inputs ++ at_input k come)
          ≡ told i (outputs ++ at_output k went) ++ map (meaning memory) (pending (slot server i))
    order_other i h =
        given-append i inputs (at_input k come)
        ∙ ap (λ (events : List Event). given i inputs ++ events) (given-at_input_other k i come h)
        ∙ append-nil (given i inputs)
        ∙ sound.order i
        ∙ ap₂ ◌++◌
            (sym (
              told-append i outputs (at_output k went)
              ∙ ap (λ (events : List Event). told i outputs ++ events)
                  (told-at_output_other k i went h)
              ∙ append-nil (told i outputs)))
            (sym (u.kept i))

    after-order :
        (i : ℕ)
        → given i (inputs ++ at_input k come)
          ≡ told i (outputs ++ at_output k went) ++ waiting after i
    after-order i = elim (Bool-cases (k == i)) [
      | inl same ↦
          let e : k ≡ i = ground arith in
          rw (sym e)
            (rw (get_or-set_same server.connections k conn new_connection inside) order_same)
      | inr other ↦
          let h : k ≢ i = ground arith in
          rw (get_or-set_other server.connections k i conn new_connection h) (order_other i h)
    ]

    pub after-IsConsistent :
        IsConsistent after (inputs ++ at_input k come) (outputs ++ at_output k went)
    after-IsConsistent = record {
      pool = u.valid;
      buffers = after-buffers;
      slots = after-slots;
      order = after-order;
    }
