-- ===== src/Copier/Stuck.antt =====
-- A destination that fails while the source waits for room in the queue. `DatagramCopier::start` in
-- include/dg_cat/datagram_copier.hpp then calls `force_eof` of the source, which closes the source's
-- handle and sets a flag of the source; it takes no step on the queue.
use dg_cat.Common.{ℕ, ◌+◌, ◌<◌, ◌≡◌, refl, sym, ap, subst, ◌∙◌, List}
use dg_cat.Wire.{Endian, prefix_len}
use dg_cat.Queue.Window.{IsValid}
use dg_cat.Queue.Commit.{Mmsghdr, commit_wake}
use dg_cat.Queue.Commit.Append.{IsMessage}
use dg_cat.Queue.Commit.Progress.{commit_wake-waits}
use dg_cat.Copier.{blocked, broken, System, settle, Step, Reach, here, next}

-- The destination is gone, and the source waits for room.
pub record IsStuck (s : System) : Type 0 where
  pub valid : IsValid s.queue
  pub gone : s.consumer ≡ broken
  pub message : Mmsghdr
  pub behind : List Mmsghdr
  pub rest : List (List Mmsghdr)
  pub held : s.producer ≡ blocked message behind rest
  pub small : IsMessage message
  pub full : s.queue.max_n < s.queue.n + message.msg_len + prefix_len

module _ (e : Endian) (max_write_size : ℕ) where
  -- A wake without room changes nothing.
  pub settle-waits :
      (s : System) (m : Mmsghdr) (ms : List Mmsghdr) (rest : List (List Mmsghdr))
      → s.producer ≡ blocked m ms rest
      → IsValid s.queue
      → IsMessage m
      → s.queue.max_n < s.queue.n + m.msg_len + prefix_len
      → settle s (commit_wake e s.queue m ms) rest ≡ s
  settle-waits s m ms rest at_ valid small few =
      ap (λ r. settle s r rest) (commit_wake-waits e s.queue m ms valid small few)
      ∙ (λ i. record s { producer = sym at_ i })

  Step-IsStuck : {s t : System} → IsStuck s → Step e max_write_size s t → t ≡ s
  Step-IsStuck {s} h (Step.call ms rest at_) = absurd (cc (h.held, at_))
  Step-IsStuck {s} h (Step.wake m ms rest at_) =
      let same : m ≡ h.message = cc (h.held, at_) in
      let few = subst (λ x. s.queue.max_n < s.queue.n + x.msg_len + prefix_len) (sym same) h.full in
      settle-waits s m ms rest at_ h.valid (subst IsMessage (sym same) h.small) few
  Step-IsStuck {s} h (Step.force rest at_) = absurd (cc (h.held, at_))
  Step-IsStuck {s} h (Step.leave at_) = absurd (cc (h.held, at_))
  Step-IsStuck {s} h (Step.close lost at_) = absurd (cc (h.held, at_))
  Step-IsStuck {s} h (Step.start b at_ ran) = absurd (cc (h.gone, at_))
  Step-IsStuck {s} h (Step.refuse x at_ ran) = absurd (cc (h.gone, at_))
  Step-IsStuck {s} h (Step.check at_) = absurd (cc (h.gone, at_))
  Step-IsStuck {s} h (Step.write b k at_ short) = absurd (cc (h.gone, at_))
  Step-IsStuck {s} h (Step.write_error b at_) = absurd (cc (h.gone, at_))
  Step-IsStuck {s} h (Step.free k q at_ ran) = absurd (cc (h.gone, at_))

  -- From such a state nothing ever changes: the source's thread never returns, so that joining it
  -- waits forever.
  pub Reach-IsStuck : {s t : System} → IsStuck s → Reach e max_write_size s t → t ≡ s
  Reach-IsStuck h here = refl
  Reach-IsStuck h (next {u = u} r st) =
      Step-IsStuck h (subst (λ x. Step e max_write_size x u) (Reach-IsStuck h r) st)
