-- ===== src/UdpCopier/Refusals.antt =====
-- The datagrams that `sendmsg` refuses with ECONNREFUSED, which `copy_from_buffer_queue` of
-- include/dg_cat/udp_datagram_destination.hpp passes over.
use dg_cat.Common.{ℕ, ◌≡◌, refl, ap, List, [], ◌∷◌, ◌++◌, arith}
use dg_cat.Wire.{Endian}
use dg_cat.Stats.{DgBufferStats}
use dg_cat.Queue.Commit.{Mmsghdr}
use dg_cat.UdpCopier.{System, Step, Reach, here, next, initial}

-- Before a step behind which nothing has been refused, nothing was refused, and the step leaves as
-- many datagrams sent as given.
Step-unrefused :
    (e : Endian) {s t : System}
    → Step e s t
    → t.refused ≡ 0
    → (s.refused ≡ 0) × (s.sent ≡ s.given → t.sent ≡ t.given)
Step-unrefused e (Step.call ms rest at_) h = (h, λ k. k)
Step-unrefused e (Step.wake m ms rest at_) h = (h, λ k. k)
Step-unrefused e (Step.force rest at_) h = (h, λ k. k)
Step-unrefused e (Step.leave at_) h = (h, λ k. k)
Step-unrefused e (Step.close lost at_) h = (h, λ k. k)
Step-unrefused e (Step.start b at_ ran) h = (h, λ k. k)
Step-unrefused e (Step.refuse x at_ ran) h = (h, λ k. k)
Step-unrefused e (Step.finish b at_ ran) h = (h, λ k. k)
Step-unrefused e (Step.ask b k at_ ran) h = (h, λ k. k)
Step-unrefused e (Step.reject b at_ ran) h = (h, λ k. k)
Step-unrefused e (Step.send b bs k at_ ran) h = (h, λ same. ap (λ x. x ++ (bs ∷ [])) same)
Step-unrefused e {s = s} (Step.send_refused b bs k at_ ran) h = absurd (omega (arith, h))
Step-unrefused e (Step.send_error b bs k at_ ran) h = (h, λ k. k)
Step-unrefused e (Step.free k q at_ ran) h = (h, λ k. k)

-- Where no datagram has been refused, those that were given to `sendmsg` have been sent.
pub Reach-unrefused :
    (e : Endian) (max_backlog : ℕ) (shared : DgBufferStats) (batches : List (List Mmsghdr))
    {t : System}
    → Reach e (initial max_backlog shared batches) t
    → t.refused ≡ 0
    → t.sent ≡ t.given
Reach-unrefused e cap shared batches here h = refl
Reach-unrefused e cap shared batches (next r st) h =
    let (before, same) = Step-unrefused e st h in
    same (Reach-unrefused e cap shared batches r before)
