-- ===== src/Handle/Once.antt =====
-- Sequences of `close` and `force_eof` on a source, and scopes of `ObjectCloser`.
use dg_cat.Common.{ℕ, ◌≡◌, refl, Bool, true, false, List, [], ◌∷◌, Option, none, some, ◌||◌}
use dg_cat.Handle.{
  Handle, opened, close, force_eof, closer_close, closer_detach, closer_move, closer_assign,
}

-- A call on a source by any thread.
pub data Call : Type 0 where
  closes forces : Call

abbrev pub call : Handle → Call → Handle
call h closes = close h
call h forces = force_eof h

abbrev pub calls : Handle → List Call → Handle
calls h [] = h
calls h (c ∷ cs) = calls (call h c) cs

abbrev pub any_forces : List Call → Bool
any_forces [] = false
any_forces (closes ∷ cs) = any_forces cs
any_forces (forces ∷ cs) = true

-- Behind the first call only `force_eof` changes.
calls-closed :
    (d : ℕ) (f : Bool) (cs : List Call)
    → let h : Handle = record {
      fd = none;
      closed = true;
      force_eof = f;
      released = d ∷ [];
      notified = 1;
    } in
      calls h cs ≡ record h { force_eof = f || any_forces cs }
unfolding close force_eof
calls-closed d true [] = refl
calls-closed d false [] = refl
calls-closed d f (closes ∷ cs) = calls-closed d f cs
calls-closed d true (forces ∷ cs) = calls-closed d true cs
calls-closed d false (forces ∷ cs) = calls-closed d true cs

-- Whatever calls of `close` and `force_eof` are made on an opened source, in whatever order, the
-- descriptor is given to `::close` exactly once and is forgotten, waiting threads are notified once,
-- and `force_eof` is set exactly if there was a call of it.
pub calls_lem :
    (d : ℕ) (c : Call) (cs : List Call)
    → calls (opened d) (c ∷ cs) ≡ record {
      fd = none;
      closed = true;
      force_eof = any_forces (c ∷ cs);
      released = d ∷ [];
      notified = 1;
    }
unfolding close force_eof
calls_lem d closes cs = calls-closed d false cs
calls_lem d forces cs = calls-closed d true cs

module _ {ℓ} {T : Type ℓ} (close_object : T → T) where
  abbrev scope_end : Option ℕ → Option ℕ → List T → List T
  scope_end obj other objects =
      (closer_close close_object other (closer_close close_object obj objects).1).1

  -- An object that was handed from one closer to another, by construction or by assignment to an
  -- empty one, is closed once when both go out of scope; one that was detached is not closed.
  pub closer-once :
      (obj : Option ℕ) (objects : List T)
      → let moved = closer_move close_object obj in
        let assigned = closer_assign close_object none obj objects in
        let detached = closer_detach close_object obj in
        (scope_end moved.0 moved.1 objects ≡ (closer_close close_object obj objects).1)
        × (scope_end assigned.0 assigned.1 assigned.2 ≡ (closer_close close_object obj objects).1)
        × (scope_end detached.0 none objects ≡ objects)
  unfolding closer_close closer_assign
  closer-once none objects = (refl, refl, refl)
  closer-once (some i) objects = (refl, refl, refl)
