-- ===== src/Fwd/Rule.antt =====
-- The tables of forwarding rules of fwd_rule.c, and the search in them of fwd.c.
pub mod Search
pub mod Conflicts
pub mod Add
use passt.Base.{
  ◌⊎◌, inl, inr, ℕ, suc, zero, ◌+◌, ◌-◌, ◌*◌, ◌/◌, ◌%◌, ◌^◌, Bool, true, false, not, ◌&&◌, ◌||◌,
  Option, none, some, List, [], ◌∷◌, ◌++◌, length, get_elem?, ltb, leb, ◌==◌, if◌then◌else◌, Run,
  done, aborted, ◌>>=◌, ◌>>◌, assert, add_u32, sub_u32,
}
use passt.Inany.{
  InanyAddr, inany_any6, inany_v4, inany_equals, inany_is_unspecified, inany_is_multicast,
  inany_matches, is_some, same_test,
}
use passt.Flow.Types.{Flowside}
use passt.Fwd.{FwdRule, ipproto_tcp, ipproto_udp}

-- bits of `flags` and of `caps`
abbrev pub has_bit : ℕ → ℕ → Bool
has_bit w k = w / 2 ^ k % 2 == 1

abbrev pub fwd_dual_stack_any : FwdRule → Bool
fwd_dual_stack_any r = has_bit r.flags 0

abbrev pub max_fwd_rules : ℕ
max_fwd_rules = 2 ^ 8 - 1

abbrev pub max_listen_socks : ℕ
max_listen_socks = 2 ^ 16 * 5

-- `struct fwd_table`: `rules` and `count` are a list, and so is `rulesocks`, by offsets into `socks`.
-- A socket of `none` is -1.
pub record FwdTable : Type 0 where
  pub caps : ℕ
  pub rules : List FwdRule
  pub rulesocks : List ℕ
  pub sock_count : ℕ
  pub socks : ℕ → Option ℕ

-- fwd_rule_addr()
abbrev pub fwd_rule_addr : FwdRule → Option InanyAddr
fwd_rule_addr r = if fwd_dual_stack_any r then none else some r.addr

-- fwd_rule_match() of fwd.c
unfoldable pub rule_applies : FwdRule → Flowside → ℕ → Bool
rule_applies r ini proto =
    r.proto == proto
    && inany_matches (some ini.oaddr) (fwd_rule_addr r)
    && leb r.first ini.oport
    && leb ini.oport r.last

-- The loop of fwd_rule_search().
unfoldable pub first_rule : List FwdRule → Flowside → ℕ → Option FwdRule
first_rule [] ini proto = none
first_rule (r ∷ rs) ini proto = if rule_applies r ini proto then some r else first_rule rs ini proto

-- fwd_rule_search(); a hint of `none` is FWD_NO_HINT
unfoldable pub fwd_rule_search : FwdTable → Flowside → ℕ → Option ℕ → Run (Option FwdRule)
fwd_rule_search fwd ini proto none = done (first_rule fwd.rules ini proto)
fwd_rule_search fwd ini proto (some hint) = elim (get_elem? fwd.rules hint) [
  | none ↦ aborted
  | some r ↦ done (if rule_applies r ini proto then some r else none)
]

-- fwd_rule_conflicts()
unfoldable pub fwd_rule_conflicts : FwdRule → FwdRule → Run Bool
fwd_rule_conflicts a b =
    if not (a.proto == b.proto)
    then done false
    else if not (inany_matches (fwd_rule_addr a) (fwd_rule_addr b))
    then done false
    else if leb a.first a.last && leb b.first b.last
    then done (not (ltb a.last b.first || ltb b.last a.first))
    else aborted

-- fwd_rule_clear() of a table
abbrev pub fwd_rule_clear : FwdTable → FwdTable
fwd_rule_clear fwd = record fwd { rules = []; rulesocks = []; sock_count = 0 }

-- The error codes of fwd_rule_add()
pub data AddError : Type 0 where
  einval eexist enospc : AddError

-- The checks of the rule on its own, by the table's `caps`: whether it is valid.
unfoldable pub is_valid_rule : ℕ → FwdRule → Bool
is_valid_rule caps r =
    let v4 = is_some (inany_v4 r.addr) in
    leb r.first r.last
    && not (r.first == 0)
    && not (r.to == 0 || ltb ((r.to + r.last + 2 ^ 16 - r.first) % 2 ^ 16) r.to)
    && r.flags / 2 ^ 3 == 0
    && (if fwd_dual_stack_any r
        then inany_equals r.addr inany_any6 && has_bit caps 0 && has_bit caps 1
        else not (v4 && not (has_bit caps 0)) && not (not v4 && not (has_bit caps 1)))
    && (if r.proto == ipproto_tcp
        then has_bit caps 2
        else if r.proto == ipproto_udp
        then has_bit caps 3
        else false)
    && (inany_is_unspecified r.taddr
        || not (inany_is_multicast r.taddr)
          && not (fwd_dual_stack_any r)
          && same_test v4 (is_some (inany_v4 r.taddr)))

-- The loop over the rules of the table: whether one of them conflicts.
unfoldable pub conflicts_any : FwdRule → List FwdRule → Run Bool
conflicts_any r [] = done false
conflicts_any r (q ∷ qs) =
    let rest = conflicts_any r qs in
    elim (fwd_rule_conflicts r q) [ aborted ↦ aborted | done true ↦ done true | done false ↦ rest ]

-- `num` entries of `socks` from `from` on are set to -1.
abbrev pub clear_socks : (ℕ → Option ℕ) → ℕ → ℕ → ℕ → Option ℕ
clear_socks socks from num i = if leb from i && ltb i (from + num) then none else socks i

-- The number of sockets of a rule, as `unsigned`
abbrev pub rule_socks : FwdRule → ℕ
rule_socks r = add_u32 (sub_u32 r.last r.first) 1

-- fwd_rule_add()
unfoldable pub fwd_rule_add : FwdTable → FwdRule → Run (AddError ⊎ FwdTable)
fwd_rule_add fwd new =
    let num = rule_socks new in
    if not (is_valid_rule fwd.caps new)
    then done (inl einval)
    else elim (conflicts_any new fwd.rules) [
      | aborted ↦ aborted
      | done true ↦ done (inl eexist)
      | done false ↦
          if leb max_fwd_rules (length fwd.rules)
          then done (inl enospc)
          else if ltb max_listen_socks (add_u32 fwd.sock_count num)
          then done (inl enospc)
          else if ltb max_listen_socks fwd.sock_count
          then done (inl enospc)
          else if ltb (max_listen_socks + new.first) new.last
          then done (inl enospc)
          else done (
              inr (record fwd {
                rules = fwd.rules ++ (new ∷ []);
                rulesocks = fwd.rulesocks ++ (fwd.sock_count ∷ []);
                sock_count = add_u32 fwd.sock_count num;
                socks = clear_socks fwd.socks fwd.sock_count num;
              }))
    ]
