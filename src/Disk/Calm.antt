-- ===== src/Disk/Calm.antt =====
-- A machine that works and that nobody else uses.
use trawlarr.Prelude.{ℕ, ◌≡◌, refl, ap, subst, ◌∙◌, Option, none, some, Str}
use trawlarr.Disk.{
  enoent, Node, Disk, lookup, put, remove, ignore, pure, go, Machine, World, Exit, returned, thrown,
  crashed, Io, on_exit, ◌>>=◌, Settled, fine, failed, settle_exit, settled, arrive, do_call,
  call_by, call, Fate, node_or, lstat, link_at, link, unlink_at, unlink, visit,
}
use trawlarr.Disk.Keeps.{Leads}

pub record IsIdeal (m : Machine) : Type 0 where
  pub works : (n : ℕ) → m.decide n ≡ go
  pub works_link : (n : ℕ) → m.decide_link n ≡ go
  pub alone : (n : ℕ) (d : Disk) → m.others n d ≡ d

-- On the machine `m`, with the note `n` and the disk `d`.
abbrev pub On : Machine → Option ℕ → Disk → World → Type 0
On m n d w = (w.machine ≡ m) × (w.note ≡ n) × (w.disk ≡ d)

module _ (m : Machine) (note : Option ℕ) (ideal : IsIdeal m) where
  -- The program ends with `e`, and leaves the disk `d'`.
  abbrev pub Gives : {A : Type 0} → Disk → Io A → Exit A → Disk → Type 0
  Gives d p e d' = Leads (On m note d) p (λ e' w. (e' ≡ e) × On m note d' w)

  call_by-Gives :
      {A : Type 0} (fates : Machine → ℕ → Fate) (d : Disk) (f : Disk → Exit A × Disk)
      → ((n : ℕ) → fates m n ≡ go)
      → Gives d (call_by fates f) (f d).0 (f d).1
  call_by-Gives fates d f works = record { leads = λ w on. ends w on.0 on.1 on.2 }
    where
      ends :
          (w : World)
          → w.machine ≡ m
          → w.note ≡ note
          → w.disk ≡ d
          → ((do_call (fates w.machine w.calls) f (arrive w)).0 ≡ (f d).0)
            × On m note (f d).1 (do_call (fates w.machine w.calls) f (arrive w)).1
      ends w e n k =
          let now : fates w.machine w.calls ≡ go = ap (λ n. fates n w.calls) e ∙ works w.calls in
          let there : w.machine.others w.calls w.disk ≡ d =
            ap (λ n. n.others w.calls w.disk) e ∙ (ideal.alone w.calls w.disk ∙ k) in
          rw now (ap (λ x. (f x).0) there, (e, n, ap (λ x. (f x).1) there))

  pub call-Gives :
      {A : Type 0} (d : Disk) (f : Disk → Exit A × Disk) → Gives d (call f) (f d).0 (f d).1
  unfolding call
  call-Gives d f = call_by-Gives (λ m. m.decide) d f ideal.works

  pub then-Gives :
      {A B : Type 0} {Q : Exit B → World → Type 0} (d d' : Disk) (p : Io A) (f : A → Io B) (a : A)
      → Gives d p (returned a) d'
      → Leads (On m note d') (f a) Q
      → Leads (On m note d) (p >>= f) Q
  then-Gives {A} {B} {Q} d d' p f a h k = record {
    leads = λ w on. by_exit (p w).0 (p w).1 ((h.leads w on).0) ((h.leads w on).1);
  }
    where
      by_exit :
          (e : Exit A) (w : World)
          → e ≡ returned a
          → On m note d' w
          → Q (on_exit e w f).0 (on_exit e w f).1
      by_exit e w same on = rw same (k.leads w on)

  abbrev caught : {A : Type 0} → Exit A → Exit (Settled A)
  caught (returned a) = returned (fine a)
  caught (thrown c) = returned (failed c)
  caught crashed = crashed

  pub settled-Gives :
      {A : Type 0} (d d' : Disk) (p : Io A) (e : Exit A)
      → Gives d p e d'
      → Gives d (settled p) (caught e) d'
  settled-Gives {A} d d' p e h = record {
    leads = λ w on. by_exit (p w).0 (p w).1 ((h.leads w on).0) ((h.leads w on).1);
  }
    where
      by_exit :
          (e' : Exit A) (w : World)
          → e' ≡ e
          → On m note d' w
          → ((settle_exit e' w).0 ≡ caught e) × On m note d' (settle_exit e' w).1
      by_exit (returned a) w same on = (ap caught same, on)
      by_exit (thrown c) w same on = (ap caught same, on)
      by_exit crashed w same on = (ap caught same, on)

  pub lstat-Gives : (d : Disk) (p : Str) → Gives d (lstat p) (node_or (lookup d p)) d
  unfolding lstat
  lstat-Gives d p = call-Gives d (λ d'. (node_or (lookup d' p), d'))

  pub settled-lstat-some :
      (d : Disk) (p : Str) (n : Node)
      → lookup d p ≡ some n
      → Gives d (settled (lstat p)) (returned (fine n)) d
  settled-lstat-some d p n at =
      subst (λ o. Gives d (settled (lstat p)) (caught (node_or o)) d) at
        (settled-Gives d d (lstat p) (node_or (lookup d p)) (lstat-Gives d p))

  pub settled-lstat-none :
      (d : Disk) (p : Str)
      → lookup d p ≡ none
      → Gives d (settled (lstat p)) (returned (failed enoent)) d
  settled-lstat-none d p at =
      subst (λ o. Gives d (settled (lstat p)) (caught (node_or o)) d) at
        (settled-Gives d d (lstat p) (node_or (lookup d p)) (lstat-Gives d p))

  pub settled-link-free :
      (d : Disk) (from to : Str) (n : Node)
      → lookup d from ≡ some n
      → lookup d to ≡ none
      → Gives d (settled (link from to)) (returned (fine tt)) (put d to n)
  unfolding link
  settled-link-free d from to n at free =
      settled-Gives d (put d to n) (link from to) (returned tt) (
        subst (λ x. Gives d (link from to) x.0 x.1)
          (ap (λ s. link_at d to s (lookup d to)) at ∙ ap (link_at d to (some n)) free)
          (call_by-Gives (λ m. m.decide_link) d
            (λ d'. link_at d' to (lookup d' from) (lookup d' to)) ideal.works_link))

  pub ignore-unlink-some :
      (d : Disk) (p : Str) (n : Node)
      → lookup d p ≡ some n
      → Gives d (ignore (unlink p)) (returned tt) (remove d p)
  unfolding unlink
  ignore-unlink-some d p n at =
      then-Gives d (remove d p) (settled (unlink p)) (λ r. pure tt) (fine tt)
        (settled-Gives d (remove d p) (unlink p) (returned tt) (
          subst (λ x. Gives d (unlink p) x.0 x.1) (ap (unlink_at d p) at)
            (call-Gives d (λ d'. unlink_at d' p (lookup d' p)))))
        (record { leads = λ w on. (refl, on) })

  pub visit-Gives : (d : Disk) → Gives d visit (returned tt) d
  unfolding visit
  visit-Gives d = call-Gives d (λ d'. (returned tt, d'))
