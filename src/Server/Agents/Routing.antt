-- ===== src/Server/Agents/Routing.antt =====
-- Which agents serve captures in src/server/agents.rs: `pcap_agent`, `has_pcap` and `connected`.
use evebox.Base.{
  ℕ, ◌≡◌, ◌≢◌, ◌↔◌, inl, inr, refl, sym, subst, ◌∙◌, Bool, true, false, not, ◌&&◌, ◌||◌, Option,
  none, some, List, [], ◌∷◌, String, length, get_elem?, lookup, lookup_of_IsFresh, HasDistinctKeys,
  str_eq, eq_iff, eq_refl, if◌then◌else◌, arith, Bool-cases,
}
use evebox.Agent.Protocol.{capability_pcap}
use evebox.Server.AgentEntry.{AgentEntry, supports, local_pcap_source_name}
use evebox.Server.Agents.{AgentRegistry, new_registry, get, Call, run}
use evebox.Server.Agents.Invariant.{reached-RegistryInv}

filter_pcap : Option AgentEntry → Option AgentEntry
unfolding supports
filter_pcap none = none
filter_pcap (some e) = if supports capability_pcap e then some e else none

unfoldable pub pcap_agent : String → AgentRegistry → Option AgentEntry
unfolding filter_pcap get
pcap_agent name r = if str_eq name local_pcap_source_name then none else filter_pcap (get name r)

is_eligible : Option AgentEntry → Bool
unfolding supports
is_eligible none = false
is_eligible (some e) = supports capability_pcap e && not (str_eq e.name local_pcap_source_name)

any_eligible : List (String × ℕ) → List AgentEntry → Bool
unfolding is_eligible
any_eligible [] heap = false
any_eligible ((_, a) ∷ agents) heap =
    let rest = any_eligible agents heap in is_eligible (get_elem? heap a) || rest

unfoldable pub has_pcap : AgentRegistry → Bool
unfolding any_eligible
has_pcap r = any_eligible r.agents r.heap

unfoldable pub connected : AgentRegistry → ℕ
connected r = length r.agents

any_eligible-some :
    (agents : List (String × ℕ)) (heap : List AgentEntry)
    → HasDistinctKeys agents
    → any_eligible agents heap ≡ true
    → (n : String) × (a : ℕ) × (lookup n agents ≡ some a) × (is_eligible (get_elem? heap a) ≡ true)
unfolding any_eligible lookup
any_eligible-some [] heap d h = cc
any_eligible-some ((n, a) ∷ agents) heap d h = elim (Bool-cases (is_eligible (get_elem? heap a))) [
  | inl served ↦ (n, a, rw (eq_refl n) refl, served)
  | inr unfit ↦
      let (m, b, there, served) = any_eligible-some agents heap d.1 (ground arith) in
      (m, b, ground (arith, eq_iff n m, lookup_of_IsFresh n agents d.0), served)
]

any_eligible_complete :
    (n : String) (a : ℕ) (agents : List (String × ℕ)) (heap : List AgentEntry)
    → lookup n agents ≡ some a
    → is_eligible (get_elem? heap a) ≡ true
    → any_eligible agents heap ≡ true
unfolding any_eligible lookup
any_eligible_complete n a [] heap h served = cc
any_eligible_complete n a ((m, b) ∷ agents) heap h served = elim (Bool-cases (str_eq m n)) [
  | inl same ↦
      let here : b ≡ a = ground arith in
      let first = subst (λ x. is_eligible (get_elem? heap x) ≡ true) (sym here) served in
      rw first refl
  | inr other ↦
      let rest = any_eligible_complete n a agents heap (ground arith) served in ground arith
]

-- For an entry under its own name, eligibility is what the routing by name answers.
eligible_iff :
    (e : AgentEntry)
    → (is_eligible (some e) ≡ true)
      ↔ ((if str_eq e.name local_pcap_source_name then none else filter_pcap (some e)) ≢ none)
unfolding is_eligible filter_pcap
eligible_iff e = (λ h k. ground arith, λ h. ground arith)

routed :
    (n : String) (a : ℕ) (r : AgentRegistry) {e : AgentEntry}
    → lookup n r.agents ≡ some a
    → get_elem? r.heap a ≡ some e
    → pcap_agent n r ≡ (if str_eq n local_pcap_source_name then none else filter_pcap (some e))
unfolding pcap_agent get
routed n a r there at_a = rw (there, at_a) refl

routed_entry :
    (n : String) (o : Option ℕ) (r : AgentRegistry)
    → lookup n r.agents ≡ o
    → pcap_agent n r ≢ none
    → (a : ℕ) × (lookup n r.agents ≡ some a)
unfolding pcap_agent get filter_pcap
routed_entry n none r e h = absurd (h (rw e (ground arith)))
routed_entry n (some a) r e h = (a, e)

-- In every registry that calls bring about, some agent is reported as able to serve captures
-- exactly when a request that names some agent can be routed.
pub has_pcap_iff :
    (calls : List Call)
    → (has_pcap (run calls new_registry) ≡ true)
      ↔ ((name : String) × (pcap_agent name (run calls new_registry) ≢ none))
unfolding has_pcap
has_pcap_iff calls =
    let r = run calls new_registry in
    let inv = reached-RegistryInv calls in
    (
      λ h.
          let (n, a, there, served) = any_eligible-some r.agents r.heap inv.distinct h in
          let (e, at_a, name) = inv.named n a there in
          let here = subst (λ m. lookup m r.agents ≡ some a) (sym name) there in
          (
            e.name,
            λ none_found.
                (eligible_iff e).0 (subst (λ o. is_eligible o ≡ true) at_a served)
                  (sym (routed e.name a r here at_a) ∙ none_found),
          ),
      λ (n, found).
          let (a, there) = routed_entry n (lookup n r.agents) r refl found in
          let (e, at_a, name) = inv.named n a there in
          let here = subst (λ m. lookup m r.agents ≡ some a) (sym name) there in
          let found_e = subst (λ m. pcap_agent m r ≢ none) (sym name) found in
          any_eligible_complete e.name a r.agents r.heap here (
            subst (λ o. is_eligible o ≡ true) (sym at_a)
              ((eligible_iff e).1 (λ h. found_e (routed e.name a r here at_a ∙ h)))),
    )
