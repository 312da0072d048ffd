-- ===== src/Replace/Recovery/Links.antt =====
-- A machine on which no hard link is refused as unsupported or forbidden, and the looks and the last
-- step of a recovery.
use trawlarr.Prelude.{ℕ, ◌≡◌, refl, Bool, true, false, not, Option, none, some, Str}
use trawlarr.Disk.{
  Code, eexist, enoent, exdev, eperm, enosys, eopnotsupp, enotsup, eacces, other, fault, Node,
  lookup, Fate, go, crash, fail, torn, Machine, World, Exit, returned, thrown, crashed, ◌>>◌,
  arrive, do_call, link_at, link, visit, set_note,
}
use trawlarr.Disk.Keeps.{Leads, At, Keeps, Keeps-pure, Keeps->>=, Keeps-ignore, Keeps-visit}
use trawlarr.Disk.Reads.{IsStable, Reads, Reads-call}
use trawlarr.Replace.Recovery.{Outcome, restore_unsupported, drop_note, resolve}

abbrev pub is_link_fate : Fate → Bool
is_link_fate go = true
is_link_fate crash = true
is_link_fate (fail c) = not (restore_unsupported c)
is_link_fate (torn c) = not (restore_unsupported c)

-- No call that makes a hard link fails with one of the codes at which the recovery renames instead
-- (EPERM, EACCES, ENOTSUP, EOPNOTSUPP, ENOSYS); other calls may fail with these also.
abbrev pub HasLinks : Machine → Type 0
HasLinks m = (n : ℕ) → is_link_fate (m.decide_link n) ≡ true

module _ (from to : Str) where
  abbrev pub IsSupported : Exit Unit → World → Type 0
  IsSupported (returned u) w = Unit
  IsSupported (thrown c) w = restore_unsupported c ≡ false
  IsSupported crashed w = Unit

  fault-restore_unsupported :
      (c : Code) → not (restore_unsupported c) ≡ true → restore_unsupported (fault c) ≡ false
  fault-restore_unsupported eexist h = refl
  fault-restore_unsupported enoent h = refl
  fault-restore_unsupported exdev h = refl
  fault-restore_unsupported eperm h = cc
  fault-restore_unsupported enosys h = cc
  fault-restore_unsupported eopnotsupp h = cc
  fault-restore_unsupported enotsup h = cc
  fault-restore_unsupported eacces h = cc
  fault-restore_unsupported other h = refl

  pub link-IsSupported : Leads (λ w. HasLinks w.machine) (link from to) IsSupported
  unfolding link
  link-IsSupported = record {
    leads = λ w h. by_fate (arrive w) (w.machine.decide_link w.calls) (h w.calls);
  }
    where
      by_nodes :
          (w : World) (source target : Option Node)
          → IsSupported
              (link_at w.disk to source target).0
              (record w { disk = (link_at w.disk to source target).1 })
      by_nodes w none target = refl
      by_nodes w (some n) (some m) = refl
      by_nodes w (some n) none = tt

      by_fate :
          (w : World) (x : Fate)
          → is_link_fate x ≡ true
          → IsSupported
              (do_call x (λ d. link_at d to (lookup d from) (lookup d to)) w).0
              (do_call x (λ d. link_at d to (lookup d from) (lookup d to)) w).1
      by_fate w go h = by_nodes w (lookup w.disk from) (lookup w.disk to)
      by_fate w crash h = tt
      by_fate w (fail c) h = fault-restore_unsupported c h
      by_fate w (torn c) h = fault-restore_unsupported c h

pub Reads-resolve : {P : World → Type 0} → IsStable P → (q : Str) → Reads P (resolve q)
unfolding resolve
Reads-resolve stable q = record {
  leads = λ w p. (Reads-call stable (λ d. returned (w.machine.real_path d q))).leads w p;
}

module _ (o : Node) where
  pub At-IsStable : (q : Str) → IsStable (At o q)
  At-IsStable q w at = (at.0, at.0 w.calls w.disk q at.1)

  pub Keeps-drop_note : (q : Str) (out : Outcome) → Keeps o q (drop_note out)
  Keeps-drop_note q out =
      Keeps->>= o q _ _
        (Keeps-ignore o q (visit >> set_note none) (
          Keeps->>= o q visit (λ u. set_note none) (Keeps-visit o q)
            (λ u. record { keeps = λ w at. at })))
        (λ u. Keeps-pure o q out)
