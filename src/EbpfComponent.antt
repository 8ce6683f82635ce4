-- ===== src/EbpfComponent.antt =====
-- pkg/ebpf/component.go, and `Load`, `AttachXDP`, `AttachTC`, `ensureClsact` and `Close` of
-- pkg/ebpf/manager.go: what the component holds in the kernel. Whether each call of the eBPF and
-- netlink libraries succeeds is a parameter.
pub mod Laws
use an_lf.Base.{Bool, true, false, Option, none, some, List, [], ◌∷◌, ◌++◌, if◌then◌else◌}

-- The pointers of the manager, and, as a history, what is really held in the kernel.
pub record Manager : Type 0 where
  pub xdp_link : Bool
  pub tc_filter : Bool
  pub holds_objects : Bool
  pub holds_xdp : Bool
  pub holds_tc : Bool
  -- Whether the manager has added the clsact qdisc to the interface.
  pub added_qdisc : Bool

pub record Component : Type 0 where
  pub manager : Manager
  pub is_started : Bool

-- `NewComponent`, with an interface that is not empty.
unfoldable pub new_component : Component
new_component = record {
  manager = record {
    xdp_link = false;
    tc_filter = false;
    holds_objects = false;
    holds_xdp = false;
    holds_tc = false;
    added_qdisc = false;
  };
  is_started = false;
}

-- Which calls succeed.
pub record Kernel : Type 0 where
  pub loads : Bool
  pub finds_interface : Bool
  pub attaches_xdp : Bool
  -- Adding the qdisc also fails where there is one.
  pub adds_qdisc : Bool
  pub adds_filter : Bool
  pub closes_link : Bool
  pub deletes_filter : Bool
  pub closes_objects : Bool

pub data CloseError : Type 0 where
  closing_link closing_filter closing_objects : CloseError

pub data EbpfError : Type 0 where
  already_started load_failed xdp_failed tc_failed stop_timeout : EbpfError
  close_failed : List CloseError → EbpfError

abbrev pub error_unless : Bool → CloseError → List CloseError
error_unless true e = []
error_unless false e = e ∷ []

-- `Close` goes on after an error. It leaves the pointers as they are.
unfoldable pub close : Kernel → Manager → Manager × List CloseError
close k m = (
  record m {
    holds_xdp = if m.xdp_link then (if k.closes_link then false else m.holds_xdp) else m.holds_xdp;
    holds_tc = if m.tc_filter then (if k.deletes_filter then false else m.holds_tc) else m.holds_tc;
    holds_objects = if k.closes_objects then false else m.holds_objects;
  },
  (if m.xdp_link then error_unless k.closes_link closing_link else [])
      ++ (if m.tc_filter then error_unless k.deletes_filter closing_filter else [])
      ++ error_unless k.closes_objects closing_objects,
)

-- `Load`, `AttachXDP` and `AttachTC`: the manager, and whether there was no error.
unfoldable pub load : Kernel → Manager → Manager × Bool
load k m = if k.loads then (record m { holds_objects = true }, true) else (m, false)

unfoldable pub attach_xdp : Kernel → Manager → Manager × Bool
attach_xdp k m =
    if k.finds_interface
    then (if k.attaches_xdp
        then (record m { xdp_link = true; holds_xdp = true }, true)
        else (m, false))
    else (m, false)

-- `ensureClsact` returns no error, whether the qdisc can be added or not. Nothing takes it away.
unfoldable pub ensure_clsact : Kernel → Manager → Manager
ensure_clsact k m = if k.adds_qdisc then record m { added_qdisc = true } else m

unfoldable pub attach_tc : Kernel → Manager → Manager × Bool
unfolding ensure_clsact
attach_tc k m =
    let ensured = ensure_clsact k m in
    if k.finds_interface
    then (if k.adds_filter
        then (record ensured { tc_filter = true; holds_tc = true }, true)
        else (ensured, false))
    else (m, false)

-- `Start` closes the manager where one of the two programs cannot be attached.
unfoldable pub start : Kernel → Component → Component × Option EbpfError
unfolding load attach_xdp attach_tc close
start k c =
    let (m1, loaded) = load k c.manager in
    let (m2, attached) = attach_xdp k m1 in
    let (m3, filtered) = attach_tc k m2 in
    if c.is_started
    then (c, some already_started)
    else if loaded
    then (if attached
        then (if filtered
            then (record { manager = m3; is_started = true }, none)
            else (record c { manager = (close k m3).0 }, some tc_failed))
        else (record c { manager = (close k m2).0 }, some xdp_failed))
    else (record c { manager = m1 }, some load_failed)

abbrev after_close : Component → Manager × List CloseError → Component × Option EbpfError
after_close c (m, []) = (record { manager = m; is_started = false }, none)
after_close c (m, e ∷ errs) = (record c { manager = m }, some (close_failed (e ∷ errs)))

-- `Stop`: whether the closing ends before the timeout is a parameter. It goes on after the timeout.
unfoldable pub stop : Kernel → Bool → Component → Component × Option EbpfError
unfolding close
stop k in_time c =
    if c.is_started
    then (if in_time
        then after_close c (close k c.manager)
        else (record c { manager = (close k c.manager).0 }, some stop_timeout))
    else (c, none)
