-- ===== src/Handle.antt =====
-- Who closes a file descriptor: `close` and `force_eof` of the sources
-- (include/dg_cat/file_datagram_source.hpp; udp_datagram_source.hpp has the same code with `_sock`),
-- `close` of the destinations (include/dg_cat/file_datagram_destination.hpp, and
-- udp_datagram_destination.hpp alike), and include/dg_cat/object_closer.hpp.
pub mod Once
use dg_cat.Common.{
  ℕ, ◌+◌, Bool, true, false, List, [], ◌∷◌, ◌++◌, Option, none, some, if◌then◌else◌, zero, suc,
}

-- The descriptor, the two flags, the descriptors that were given to `::close` so far, and the number
-- of calls of `notify_all`.
pub record Handle : Type 0 where
  pub fd : Option ℕ
  pub closed : Bool
  pub force_eof : Bool
  pub released : List ℕ
  pub notified : ℕ

-- An object behind its constructor.
abbrev pub opened : ℕ → Handle
opened d = record { fd = some d; closed = false; force_eof = false; released = []; notified = 0 }

abbrev release : Handle → Option ℕ → Handle
release h none = h
release h (some d) = record h { fd = none; released = h.released ++ (d ∷ []) }

abbrev release_and_notify : Handle → Option ℕ → Handle
release_and_notify h none = h
release_and_notify h (some d) = record h {
  fd = none;
  released = h.released ++ (d ∷ []);
  notified = h.notified + 1;
}

-- `close` of a source
unfoldable pub close : Handle → Handle
close h = if h.closed then h else release_and_notify (record h { closed = true }) h.fd

-- `force_eof` of a source
unfoldable pub force_eof : Handle → Handle
force_eof h = close (record h { force_eof = true })

-- `close` of a destination
unfoldable pub close_destination : Handle → Handle
close_destination h = if h.closed then h else release (record h { closed = true }) h.fd

-- `ObjectCloser` over objects of a type `T`: the pointer is an index of the objects.
module _ {ℓ} {T : Type ℓ} (close_object : T → T) where
  -- the object at an index, closed
  abbrev pub close_at : List T → ℕ → List T
  close_at [] i = []
  close_at (x ∷ xs) zero = close_object x ∷ xs
  close_at (x ∷ xs) (suc i) = x ∷ close_at xs i

  -- `close`, which the destructor calls
  unfoldable pub closer_close : Option ℕ → List T → Option ℕ × List T
  closer_close none objects = (none, objects)
  closer_close (some i) objects = (none, close_at objects i)

  -- the pointer that is left, and the one returned
  abbrev pub closer_detach : Option ℕ → Option ℕ × Option ℕ
  closer_detach obj = (none, obj)

  unfoldable pub closer_reset : Option ℕ → Option ℕ → List T → Option ℕ × List T
  closer_reset obj new objects = (new, (closer_close obj objects).1)

  -- The move constructor: the new pointer, and the one that is left in the other.
  abbrev pub closer_move : Option ℕ → Option ℕ × Option ℕ
  closer_move other = (other, none)

  -- Assignment from another closer: both pointers, and the objects.
  unfoldable pub closer_assign : Option ℕ → Option ℕ → List T → Option ℕ × Option ℕ × List T
  closer_assign obj other objects = (other, none, (closer_close obj objects).1)

  abbrev pub closer_swap : Option ℕ → Option ℕ → Option ℕ × Option ℕ
  closer_swap obj other = (other, obj)
