-- ===== src/UdpCopier/Moves.antt =====
-- Steps of a copy to a UDP socket against its invariant: those of the source's thread, and those of the
-- sender that leave the queue alone.
use dg_cat.Common.{
  concat, All-split, All-append, All, ℕ, ◌≡◌, refl, sym, ap, ◌∙◌, subst, true, false, List, [],
  ◌++◌, append_assoc, inl, inr, ◌⊎◌, append-nil,
}
use dg_cat.Queue.Window.{contents}
use dg_cat.Queue.Commit.{Mmsghdr, CommitResult}
use dg_cat.Queue.Commit.Append.{IsMessage, Appends, result_queue, unsent}
use dg_cat.Queue.Commit.Progress.{Blocked}
use dg_cat.Queue.Commit.Fitting.{IsFitting, Accepts}
use dg_cat.Queue.Commit.Whole.{
  delivered, delivered-append, delivered-All32, Dealt, Appends-delivered,
}
use dg_cat.Copier.{Producer, producer_next}
use dg_cat.Copier.Invariant.{pending, ProducerOk, pending-next, producer_next-ProducerOk}
use dg_cat.Copier.Lossless.{Complete, next-Complete}
use dg_cat.UdpCopier.{Sender, System, settle}
use dg_cat.UdpCopier.Invariant.{due, SenderOk, Inv, grown-Inv}

-- A call of `producer_commit_batch` or a wake of it.
pub settle-Inv :
    (cap : ℕ) (all : List Mmsghdr) (s : System) (ms : List Mmsghdr) (rest : List (List Mmsghdr))
    (r : CommitResult)
    → Inv cap all s
    → s.queue.is_eof ≡ false
    → pending s.producer ≡ ms ++ concat rest
    → Appends s.queue ms r
    → Dealt ms r
    → Blocked r
    → (Complete cap s.producer → Accepts cap r × All (IsFitting cap) (concat rest))
    → Inv cap all (settle s r rest)
settle-Inv cap all s ms rest r i open_ eq a dealt b go =
    let (mine, later) =
      All-split IsMessage ms (concat rest) (subst (All IsMessage) eq i.messages) in
    let (ns, split, good, bytes) = Appends-delivered s.queue ms r mine a dealt in
    let next = pending-next r rest in
    let moved : pending s.producer ≡ ns ++ pending (producer_next r rest) =
      eq
      ∙ ap (λ x. x ++ concat rest) split
      ∙ append_assoc ns (unsent r) (concat rest)
      ∙ ap (λ x. ns ++ x) (sym next) in
    grown-Inv cap all s (result_queue r) (producer_next r rest) (delivered ns) i open_ a.valid
      a.capacity a.consumer bytes (delivered-All32 ns good)
      (ap delivered moved ∙ delivered-append ns (pending (producer_next r rest)))
      (subst (All IsMessage) (sym next)
        (All-append IsMessage (unsent r) (concat rest) a.left later))
      (producer_next-ProducerOk s.queue r rest b (a.eof ∙ open_))
      (λ fits. elim (i.complete fits) [
        | inl forced ↦ inl forced
        | inr c ↦ inr (next-Complete cap r rest (go c).0 (go c).1)
      ])

-- A step of the sender that leaves the queue alone.
pub sender-Inv :
    (cap : ℕ) (all : List Mmsghdr) (s : System) (c : Sender)
    → (i : Inv cap all s) → SenderOk i.frames s.queue c
    → due c i.frames ≡ due s.sender i.frames
    → Inv cap all (record s { sender = c })
sender-Inv cap all s c i ok_ same = record {
  valid = i.valid;
  messages = i.messages;
  producer_ok = i.producer_ok;
  capacity = i.capacity;
  asked = i.asked;
  frames = i.frames;
  held = i.held;
  small = i.small;
  straight = i.straight;
  sender_ok = ok_;
  accounts = ap (λ x. s.given ++ (x ++ delivered (pending s.producer))) same ∙ i.accounts;
  complete = i.complete;
}

pub forced-Inv :
    (cap : ℕ) (all : List Mmsghdr) {s : System}
    → Inv cap all s
    → Inv cap all (record s { forced = true })
forced-Inv cap all i = record {
  valid = i.valid;
  messages = i.messages;
  producer_ok = i.producer_ok;
  capacity = i.capacity;
  asked = i.asked;
  frames = i.frames;
  held = i.held;
  small = i.small;
  straight = i.straight;
  sender_ok = i.sender_ok;
  accounts = i.accounts;
  complete = λ _. inl refl;
}

-- The source's loop ends with what is pending.
pub quits :
    (cap : ℕ) (all : List Mmsghdr) (s : System) (i : Inv cap all s) (p : Producer)
    → s.queue.is_eof ≡ false
    → pending p ≡ pending s.producer
    → ProducerOk s.queue p
    → (All (IsFitting cap) all → (s.forced ≡ true) ⊎ Complete cap p)
    → Inv cap all (record s { producer = p })
quits cap all s i p open_ same ok_ complete =
    grown-Inv cap all s s.queue p [] i open_ i.valid refl refl (sym (append-nil (contents s.queue)))
      tt (ap delivered (sym same)) (subst (All IsMessage) (sym same) i.messages) ok_ complete
