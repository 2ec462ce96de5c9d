-- ===== src/Pool/Turns/Calm/Raced.antt =====
-- A push while the thread of a worker has a work whose item was used before.
use highway.Prelude.{◌≡◌, true, ret}
use highway.Pool.Queue.{Item}
use highway.Pool.Turns.{Shared, advance, push, races}
use highway.Pool.Turns.Calm.Idle.{Idle}

-- The thread takes a work up, and from then on every push races.
record Raced (s : Shared) (i : Item) : Type 0 where
  given : Shared
  pushed : push s i.pointer i.func i.arg ≡ ret given
  taken : Shared
  goes : advance given.turn given ≡ ret taken
  racing : races taken ≡ true
