-- ===== src/Flow/Retarget.antt =====
-- What flow_target() stores in a flow in state INI.
use passt.Base.{
  ℕ, ◌≡◌, ◌≢◌, inl, inr, refl, subst, arith, Bool, true, false, Option, none, some, update, ◌==◌,
  Bool-cases,
}
use passt.Flow.Types.{FlowState, FlowCommon, ini, tgt, pif_none}
use passt.Flow.Table.{FlowTable}
use passt.Flow.Target.{Forwarding, retarget}
use passt.Flow.Invariant.{IsTable, NewEntry}
use passt.Flow.Lifecycle.{set_common-IsTable}

-- The state after flow_target(), by whether it returned a side.
abbrev pub next_state : Bool → FlowState
next_state true = tgt
next_state false = ini

-- A result of flow_target() on the flow `i`: the flow is in TGT if a side was returned and in INI
-- if not, its initiating side is as before, and no other flow has changed.
pub record IsTargeted (s : FlowTable) (i : ℕ) (r : Bool × FlowTable) : Type 0 where
  pub valid : IsTable r.1
  pub same_new : r.1.new_entry ≡ s.new_entry
  pub moved : (r.1.tab i).f.state ≡ next_state r.0
  pub same_pif : (r.1.tab i).f.pif_ini ≡ (s.tab i).f.pif_ini
  pub same_side : (r.1.tab i).f.side_ini ≡ (s.tab i).f.side_ini
  pub others : (j : ℕ) → j ≢ i → r.1.tab j ≡ s.tab j

-- The common part that `translate` hands on differs in the target side and the MAC address only.
abbrev pub IsTranslated : FlowCommon → Option (ℕ × FlowCommon) → Type 0
IsTranslated f none = Unit
IsTranslated f (some (pif, g)) =
    (g.state ≡ f.state)
    × (g.flow_type ≡ f.flow_type)
    × (g.pif_ini ≡ f.pif_ini)
    × (g.pif_tgt ≡ f.pif_tgt)
    × (g.side_ini ≡ f.side_ini)

pub retarget-IsTargeted :
    {Rule : Type 0} (fwd : Forwarding Rule) (s : FlowTable) (i : ℕ) (o : Option (ℕ × FlowCommon))
    → IsTable s
    → s.new_entry ≡ some i
    → (s.tab i).f.state ≡ ini
    → IsTranslated (s.tab i).f o
    → IsTargeted s i (retarget fwd s i o)
unfolding retarget update
retarget-IsTargeted fwd s i none v e st t = record {
  valid = v;
  same_new = refl;
  moved = st;
  same_pif = refl;
  same_side = refl;
  others = λ j ne. refl;
}
retarget-IsTargeted fwd s i (some (pif, g)) v e st t =
    let entry : NewEntry s (some i) = subst (NewEntry s) e v.newest in
    elim (Bool-cases (pif == pif_none)) [
      | inl q ↦ rw (q) (record {
        valid =
            set_common-IsTable s i g v e (ground (arith, t.0)) (ground (arith, t, st, v.staged i));
        same_new = refl;
        moved = ground (arith, t.0);
        same_pif = ground (arith, t.0);
        same_side = ground (arith, t.0);
        others = λ j ne. ground arith;
      })
      | inr q ↦ rw (q) (record {
        valid =
            set_common-IsTable s i (record g { pif_tgt = pif; state = tgt }) v e refl
              (ground (arith, t, st, v.staged i));
        same_new = refl;
        moved = ground arith;
        same_pif = ground (arith, t.0);
        same_side = ground (arith, t.0);
        others = λ j ne. ground arith;
      })
    ]
