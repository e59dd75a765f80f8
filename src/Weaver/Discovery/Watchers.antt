-- ===== src/Weaver/Discovery/Watchers.antt =====
-- What a watcher is sent.
use dash_fabric.Base.{
  ℕ, ◌≤◌, ◌≡◌, refl, sym, subst, ◌⊎◌, inl, inr, ◌∙◌, ap, Bool, true, false, List, [], ◌∷◌, ◌++◌,
  Option, none, some, arith, length, if◌then◌else◌, Bytes,
}
use mathlib.Core.List.{append-nil}
use dash_fabric.Weaver.Gateway.{ReplicaInfo}
use dash_fabric.Weaver.Discovery.{
  discover, static, dns_srv, Discovery, update_replicas, close, Phase, reading, offering, waiting,
  ended, Watch, new_watch, new_static_discovery, Step, update, cancel, close_it, close_again, read,
  send, stop_offering, stop_static, stop_polling, tick, tick_failed, tick_answered, Reach, here,
  onward,
}

-- The list that a step reads, if it is one of the watcher that reads.
abbrev pub read_by : {w : Watch} {r : Option Watch} → Step w r → List (List ReplicaInfo)
read_by {w = w} (read p) = discover w.discovery ∷ []
read_by (update rs) = []
read_by cancel = []
read_by (close_it d h) = []
read_by (close_again h) = []
read_by (send rs p) = []
read_by (stop_offering rs p c) = []
read_by (stop_static p k c) = []
read_by (stop_polling p k c) = []
read_by (tick p k l) = []
read_by (tick_failed p k) = []
read_by (tick_answered rs p k) = []

-- The lists that the watcher read, each as it was at that step.
abbrev pub lists_read : {w : Watch} {r : Option Watch} → Reach w r → List (List ReplicaInfo)
lists_read here = []
lists_read (onward h s) = lists_read h ++ read_by s

-- What a watcher of the static discovery has read and was sent, in each phase.
abbrev Account : Phase → List (List ReplicaInfo) → List (List ReplicaInfo) → Type 0
Account reading ls sent = (ls ≡ []) × (sent ≡ [])
Account (offering rs) ls sent = (ls ≡ rs ∷ []) × (sent ≡ [])
Account waiting ls sent = (length ls ≤ 1) × (sent ≡ ls)
Account ended ls sent = (length ls ≤ 1) × ((sent ≡ []) ⊎ (sent ≡ ls))

record Once (ls : List (List ReplicaInfo)) (w : Watch) : Type 0 where
  static_is : w.discovery.kind ≡ static
  account : Account w.phase ls w.sent

-- The property of a watcher, or a panic.
abbrev pub UnlessPanic : (Watch → Type 0) → Option Watch → Type 0
UnlessPanic P none = Unit
UnlessPanic P (some w) = P w

opened : (b : Bool) (d d' : Discovery) → (if b then none else some d) ≡ some d' → d ≡ d'
opened true d d' h = cc
opened false d d' h = cc

not_dns : static ≡ dns_srv → ⊥
not_dns h = cc

close-kind : (d d' : Discovery) → close d ≡ some d' → d'.kind ≡ d.kind
unfolding close
close-kind d d' h = sym (ap (λ x. x.kind) (opened d.closed (record d { closed = true }) d' h))

in_phase :
    {w : Watch} {ls : List (List ReplicaInfo)} (p : Phase)
    → w.phase ≡ p
    → Once ls w
    → Account p ls w.sent
in_phase {w = w} {ls = ls} p e o = subst (λ q. Account q ls w.sent) e o.account

-- A step that reads nothing.
unread :
    {w : Watch} (ls : List (List ReplicaInfo))
    → w.discovery.kind ≡ static
    → Account w.phase ls w.sent
    → Once (ls ++ []) w
unread {w = w} ls k a = record {
  static_is = k;
  account = subst (λ l. Account w.phase l w.sent) (sym (append-nil ls)) a;
}

step-Once :
    {w : Watch} {r : Option Watch} {ls : List (List ReplicaInfo)}
    → Once ls w
    → (s : Step w r) → UnlessPanic (Once (ls ++ read_by s)) r
unfolding update_replicas
step-Once {ls = ls} o (update rs) = unread ls o.static_is o.account
step-Once {ls = ls} o cancel = unread ls o.static_is o.account
step-Once {w = w} {ls = ls} o (close_it d h) =
    unread ls (close-kind w.discovery d h ∙ o.static_is) o.account
step-Once o (close_again h) = tt
step-Once {w = w} {ls = ls} o (read p) =
    let (none_read, none_sent) = in_phase {w = w} {ls = ls} reading p o in
    record {
      static_is = o.static_is;
      account = (ap (λ l. l ++ discover w.discovery ∷ []) none_read, none_sent);
    }
step-Once {w = w} {ls = ls} o (send rs p) =
    let (one_read, none_sent) = in_phase {w = w} {ls = ls} (offering rs) p o in
    unread ls o.static_is
      (rw one_read (omega arith), ap (λ l. l ++ rs ∷ []) none_sent ∙ sym one_read)
step-Once {w = w} {ls = ls} o (stop_offering rs p c) =
    let (one_read, none_sent) = in_phase {w = w} {ls = ls} (offering rs) p o in
    unread ls o.static_is (rw one_read (omega arith), inl none_sent)
step-Once {w = w} {ls = ls} o (stop_static p k c) =
    let (few, all_sent) = in_phase {w = w} {ls = ls} waiting p o in
    unread ls o.static_is (few, inr all_sent)
step-Once o (stop_polling p k c) = absurd (k o.static_is)
step-Once o (tick p k l) = absurd (k o.static_is)
step-Once o (tick_failed p k) = absurd (not_dns (sym o.static_is ∙ k))
step-Once o (tick_answered rs p k) = absurd (not_dns (sym o.static_is ∙ k))

Reach-Once :
    {w : Watch} {r : Option Watch}
    → Once [] w
    → (h : Reach w r) → UnlessPanic (Once (lists_read h)) r
Reach-Once o here = o
Reach-Once o (onward h s) = step-Once (Reach-Once o h) s

-- The watcher read one list at most, and was sent nothing else.
abbrev pub SentAsRead : List (List ReplicaInfo) → Watch → Type 0
SentAsRead ls w = (length ls ≤ 1) × ((w.sent ≡ []) ⊎ (w.sent ≡ ls))

Account-SentAsRead :
    (p : Phase) (ls sent : List (List ReplicaInfo))
    → Account p ls sent
    → (length ls ≤ 1) × ((sent ≡ []) ⊎ (sent ≡ ls))
Account-SentAsRead reading ls sent (r, s) = (rw r (omega arith), inl s)
Account-SentAsRead (offering rs) ls sent (r, s) = (rw r (omega arith), inl s)
Account-SentAsRead waiting ls sent (r, s) = (r, inr s)
Account-SentAsRead ended ls sent a = a

Once-SentAsRead :
    (ls : List (List ReplicaInfo)) (r : Option Watch)
    → UnlessPanic (Once ls) r
    → UnlessPanic (SentAsRead ls) r
Once-SentAsRead ls none o = tt
Once-SentAsRead ls (some w) o = Account-SentAsRead w.phase ls w.sent o.account

-- In any order of the steps of a watcher of the static discovery with updates and closes, unless it
-- panicked: the watcher has read the list once at most, and was sent nothing, or the list as it was
-- when it read it, whatever updates came later.
pub static_sends_once :
    (format_int : ℕ → Bytes) (addresses : List Bytes) {r : Option Watch}
    (h : Reach (new_watch (new_static_discovery format_int addresses)) r)
    → UnlessPanic (SentAsRead (lists_read h)) r
unfolding new_static_discovery
static_sends_once format_int addresses {r = r} h =
    Once-SentAsRead (lists_read h) r
      (Reach-Once (record { static_is = refl; account = (refl, refl) }) h)
