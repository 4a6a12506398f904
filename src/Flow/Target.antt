-- ===== src/Flow/Target.antt =====
-- flow_target(): where a flow is forwarded to. The forwarding rules and address translation of
-- fwd.c and fwd_rule.c are an interface.
use passt.Base.{
  ℕ, ◌^◌, ◌-◌, Bool, true, false, not, ◌&&◌, Option, none, some, ◌==◌, if◌then◌else◌, Run, done,
  aborted, ◌>>=◌, ◌>>◌, assert,
}
use passt.Inany.{InanyAddr}
use passt.Flow.Types.{
  Flowside, FlowCommon, pif_none, pif_host, pif_tap, pif_splice, is_ini, is_type_none, tgt,
}
use passt.Flow.Table.{FlowTable, set_common, is_new_entry}

-- What flow_target() calls: whether `c->fwd[pif]` is a table, fwd_rule_search() in it (by side,
-- protocol and hint; it aborts for a hint that is not an index of the table), fwd_nat_from_tap(), fwd_nat_from_splice(), fwd_nat_from_host(), each from the
-- two sides as they are to the target interface and side, and fwd_neigh_mac_get().
pub record Forwarding (Rule : Type 0) : Type 0 where
  pub has_table : ℕ → Bool
  pub rule_search : ℕ → Flowside → ℕ → Option ℕ → Run (Option Rule)
  pub nat_from_tap : ℕ → Flowside → Flowside → ℕ × Flowside
  pub nat_from_splice : Rule → ℕ → Flowside → Flowside → ℕ × Flowside
  pub nat_from_host : Rule → ℕ → Flowside → Flowside → ℕ × Flowside
  pub neigh_mac : InanyAddr → ℕ

-- MAC_UNDEF
abbrev pub mac_undef : ℕ
mac_undef = 2 ^ 48 - 1

module _ {Rule : Type 0} (fwd : Forwarding Rule) where
  -- The switch on the initiating interface: the target interface, and the common part with the
  -- target side and the guest's MAC address filled in. `none` is an interface with no case.
  unfoldable pub translate : FlowCommon → Option Rule → ℕ → Run (Option (ℕ × FlowCommon))
  translate f rule proto =
      if f.pif_ini == pif_tap
      then (let (pif, side) = fwd.nat_from_tap proto f.side_ini f.side_tgt in
          done (some (pif, record f { tap_omac = mac_undef; side_tgt = side })))
      else if f.pif_ini == pif_splice
      then (elim rule [
        | none ↦ aborted
        | some r ↦
            let (pif, side) = fwd.nat_from_splice r proto f.side_ini f.side_tgt in
            done (some (pif, record f { side_tgt = side }))
      ])
      else if f.pif_ini == pif_host
      then (elim rule [
        | none ↦ aborted
        | some r ↦
            let (pif, side) = fwd.nat_from_host r proto f.side_ini f.side_tgt in
            done (some (pif, record f { side_tgt = side; tap_omac = fwd.neigh_mac side.oaddr }))
      ])
      else done none

  -- What is stored: the move to TGT, or only the side if there is no target interface.
  unfoldable pub retarget : FlowTable → ℕ → Option (ℕ × FlowCommon) → Bool × FlowTable
  retarget s i none = (false, s)
  retarget s i (some (pif, f)) =
      if pif == pif_none
      then (false, record s { tab = set_common s.tab i f })
      else (true, record s { tab = set_common s.tab i (record f { pif_tgt = pif; state = tgt }) })

  -- The search for a rule, where the interface has a table: `none` is the jump to `norule`.
  unfoldable pub find_rule : FlowCommon → ℕ → Option ℕ → Run (Option (Option Rule))
  find_rule f proto hint =
      if fwd.has_table f.pif_ini
      then (elim (fwd.rule_search f.pif_ini f.side_ini proto hint) [
        | aborted ↦ aborted
        | done none ↦ done none
        | done (some r) ↦ done (some (some r))
      ])
      else done (some none)

  -- flow_target(), by the flow's index, the rule hint (`none` for -1) and the protocol; the Bool
  -- is whether a side is returned
  unfoldable pub flow_target : FlowTable → ℕ → Option ℕ → ℕ → Run (Bool × FlowTable)
  unfolding translate retarget find_rule
  flow_target s i hint proto =
      let f = (s.tab i).f in
      do
        assert (is_new_entry s.new_entry i && is_ini f.state)
        assert (is_type_none f.flow_type)
        assert (not (f.pif_ini == pif_none) && f.pif_tgt == pif_none)
        assert (is_ini f.state)
        elim (find_rule f proto hint) [
          | aborted ↦ aborted
          | done none ↦ done (false, s)
          | done (some rule) ↦ translate f rule proto >>= λ o. done (retarget s i o)
        ]
