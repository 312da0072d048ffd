-- ===== src/Disk/Reads.antt =====
-- Programs that only look at the disk.
use trawlarr.Prelude.{Str}
use trawlarr.Disk.{
  Disk, lookup, Fate, go, crash, fail, torn, World, Exit, returned, Io, ◌>>=◌, Settled, fine,
  failed, settled, arrive, do_call, call, node_or, lstat, visit,
}
use trawlarr.Disk.Keeps.{Leads, Leads->>=, Leads-settled, Caught}

-- What others do leaves `P` true.
abbrev pub IsStable : (World → Type 0) → Type 0
IsStable P = (w : World) → P w → P (arrive w)

-- The program leaves `P` true, however it ends.
abbrev pub Reads : {A : Type 0} → (World → Type 0) → Io A → Type 0
Reads P m = Leads P m (λ e w. P w)

module _ {P : World → Type 0} (stable : IsStable P) where
  pub Reads-call : {A : Type 0} (f : Disk → Exit A) → Reads P (call (λ d. (f d, d)))
  unfolding call
  Reads-call {A} f = record {
    leads = λ w p. by_fate (arrive w) (stable w p) (w.machine.decide w.calls);
  }
    where
      by_fate : (w : World) → P w → (x : Fate) → P (do_call x (λ d. (f d, d)) w).1
      by_fate w p go = p
      by_fate w p crash = p
      by_fate w p (fail c) = p
      by_fate w p (torn c) = p

  pub Reads-lstat : (q : Str) → Reads P (lstat q)
  unfolding lstat
  Reads-lstat q = Reads-call (λ d. node_or (lookup d q))

  pub Reads-visit : Reads P visit
  unfolding visit
  Reads-visit = Reads-call (λ d. returned tt)

module _ {A B : Type 0} {P Q : World → Type 0} (weak : (w : World) → P w → Q w) where
  -- After a look whose error is caught.
  pub settled_then :
      (m : Io A) (f : Settled A → Io B)
      → Reads P m
      → ((r : Settled A) → Leads P (f r) (λ e w. Q w))
      → Leads P (settled m >>= f) (λ e w. Q w)
  settled_then m f h k =
      Leads->>= (Caught (λ e w. P w)) (settled m) f (Leads-settled (λ e w. P w) m h) by_result
        (λ c w p. absurd p) weak
    where
      by_result : (r : Settled A) → Leads (Caught (λ e w. P w) (returned r)) (f r) (λ e w. Q w)
      by_result (fine a) = k (fine a)
      by_result (failed c) = k (failed c)

  -- After a look whose error ends the program.
  pub then_read :
      (m : Io A) (f : A → Io B)
      → Reads P m
      → ((a : A) → Leads P (f a) (λ e w. Q w))
      → Leads P (m >>= f) (λ e w. Q w)
  then_read m f h k = Leads->>= (λ e w. P w) m f h k (λ c w. weak w) weak
