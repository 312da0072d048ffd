-- ===== src/Disk/Moves.antt =====
-- The two calls that give a file another name.
use trawlarr.Prelude.{◌≡◌, ◌≢◌, refl, sym, ◌∙◌, Option, none, some, Str}
use trawlarr.Disk.{
  Node, lookup, remove, Fate, go, crash, fail, torn, World, Exit, returned, thrown, crashed, arrive,
  do_call, call, link_at, link, unlink_at, unlink, rename_at, rename,
}
use trawlarr.Disk.Names.{lookup-remove_other, lookup-put_same, lookup-put_free}
use trawlarr.Disk.Keeps.{Leads, At}

module _ (o : Node) (from to : Str) where
  -- After a link.
  abbrev pub HasBoth : Exit Unit → World → Type 0
  HasBoth (returned u) w = At o from w × At o to w
  HasBoth (thrown c) w = At o from w
  HasBoth crashed w = At o from w

  -- After a rename.
  abbrev pub HasMoved : Exit Unit → World → Type 0
  HasMoved (returned u) w = At o to w
  HasMoved (thrown c) w = At o from w
  HasMoved crashed w = At o from w

  pub link-HasBoth : Leads (At o from) (link from to) HasBoth
  unfolding link
  link-HasBoth = record {
    leads = λ w at.
        by_decision (arrive w) (at.0, at.0 w.calls w.disk from at.1)
          (w.machine.decide_link w.calls);
  }
    where
      by_nodes :
          (w : World)
          → At o from w
          → (source target : Option Node) → lookup w.disk from ≡ source
          → lookup w.disk to ≡ target
          → HasBoth
              (link_at w.disk to source target).0
              (record w { disk = (link_at w.disk to source target).1 })
      by_nodes w (fair, at) none target e f = cc
      by_nodes w at (some n) (some m) e f = at
      by_nodes w (fair, at) (some n) none e f =
          let same : some n ≡ some o = sym e ∙ at in
          (
            (fair, lookup-put_free w.disk from to n f at),
            (fair, lookup-put_same w.disk to n ∙ same),
          )

      by_decision :
          (w : World)
          → At o from w
          → (x : Fate)
          → HasBoth
              (do_call x (λ d. link_at d to (lookup d from) (lookup d to)) w).0
              (do_call x (λ d. link_at d to (lookup d from) (lookup d to)) w).1
      by_decision w at go = by_nodes w at (lookup w.disk from) (lookup w.disk to) refl refl
      by_decision w at crash = at
      by_decision w at (fail c) = at
      by_decision w at (torn c) = at

  pub rename-HasMoved : Leads (At o from) (rename from to) HasMoved
  unfolding rename call
  rename-HasMoved = record {
    leads = λ w at.
        by_decision (arrive w) (at.0, at.0 w.calls w.disk from at.1) (w.machine.decide w.calls);
  }
    where
      by_node :
          (w : World)
          → At o from w
          → (source : Option Node) → lookup w.disk from ≡ source
          → HasMoved
              (rename_at w.disk from to source).0
              (record w { disk = (rename_at w.disk from to source).1 })
      by_node w (fair, at) none e = cc
      by_node w (fair, at) (some n) e =
          let same : some n ≡ some o = sym e ∙ at in
          (fair, lookup-put_same (remove w.disk from) to n ∙ same)

      by_decision :
          (w : World)
          → At o from w
          → (x : Fate)
          → HasMoved
              (do_call x (λ d. rename_at d from to (lookup d from)) w).0
              (do_call x (λ d. rename_at d from to (lookup d from)) w).1
      by_decision w at go = by_node w at (lookup w.disk from) refl
      by_decision w at crash = at
      by_decision w at (fail c) = at
      by_decision w at (torn c) = at

  -- After the removal of one of two names.
  abbrev pub HasOther : Exit Unit → World → Type 0
  HasOther (returned u) w = At o to w
  HasOther (thrown c) w = At o from w × At o to w
  HasOther crashed w = At o from w × At o to w

  pub unlink-HasOther : from ≢ to → Leads (λ w. At o from w × At o to w) (unlink from) HasOther
  unfolding unlink call
  unlink-HasOther apart = record {
    leads = λ w at.
        by_decision (arrive w) (at.0.0, at.0.0 w.calls w.disk from at.0.1)
          (at.0.0, at.1.0 w.calls w.disk to at.1.1) (w.machine.decide w.calls);
  }
    where
      by_node :
          (w : World)
          → At o from w
          → At o to w
          → (source : Option Node)
          → HasOther
              (unlink_at w.disk from source).0
              (record w { disk = (unlink_at w.disk from source).1 })
      by_node w a b none = (a, b)
      by_node w a (fair, b) (some n) = (fair, lookup-remove_other w.disk to from apart ∙ b)

      by_decision :
          (w : World)
          → At o from w
          → At o to w
          → (x : Fate)
          → HasOther
              (do_call x (λ d. unlink_at d from (lookup d from)) w).0
              (do_call x (λ d. unlink_at d from (lookup d from)) w).1
      by_decision w a b go = by_node w a b (lookup w.disk from)
      by_decision w a b crash = (a, b)
      by_decision w a b (fail c) = (a, b)
      by_decision w a b (torn c) = (a, b)
