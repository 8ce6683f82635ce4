-- ===== src/EbpfComponent/Laws.antt =====
-- What the component of pkg/ebpf/component.go holds in the kernel after a start and a stop.
use an_lf.Base.{◌≡◌, ◌≢◌, ◌⊎◌, Bool, ◌&&◌, true, false, none, arith}
use an_lf.EbpfComponent.{
  Component, Kernel, new_component, close, load, attach_xdp, ensure_clsact, attach_tc, start, stop,
}

-- The objects and the two attachments; the qdisc is not one of them.
abbrev pub HoldsNothing : Component → Type 0
HoldsNothing c =
    (c.manager.holds_objects ≡ false) × (c.manager.holds_xdp ≡ false) × (c.manager.holds_tc ≡ false)

abbrev pub HoldsAll : Component → Type 0
HoldsAll c =
    (c.manager.holds_objects ≡ true) × (c.manager.holds_xdp ≡ true) × (c.manager.holds_tc ≡ true)

-- The calls that give something back succeed.
abbrev pub Closes : Kernel → Type 0
Closes k = (k.closes_link ≡ true) × (k.deletes_filter ≡ true) × (k.closes_objects ≡ true)

-- The start gets as far as the qdisc, and can add it.
abbrev pub gets_qdisc : Kernel → Bool
gets_qdisc k = k.loads && k.finds_interface && k.attaches_xdp && k.adds_qdisc

-- If what is given back is given back without an error, then the start of a new component is all or
-- nothing, but for the clsact qdisc: it succeeds, is started and holds the programs and both
-- attachments, or it fails at some step, is not started and holds none of these. A stop in time
-- after it succeeds and leaves none of these held either way. A qdisc that was added by the start
-- stays on the interface, also if the start fails, and after the stop.
pub start-stop :
    (k : Kernel)
    → Closes k
    → let (c, e) = start k new_component in
      let (d, f) = stop k true c in
      (((e ≡ none) × (c.is_started ≡ true) × HoldsAll c)
        ⊎ ((e ≢ none) × (c.is_started ≡ false) × HoldsNothing c))
      × (f ≡ none)
      × (d.is_started ≡ false)
      × HoldsNothing d
      × (c.manager.added_qdisc ≡ gets_qdisc k)
      × (d.manager.added_qdisc ≡ gets_qdisc k)
unfolding start stop load attach_xdp ensure_clsact attach_tc close new_component
start-stop k h = ground arith
