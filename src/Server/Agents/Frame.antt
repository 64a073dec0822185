-- ===== src/Server/Agents/Frame.antt =====
-- What each call of src/server/agents.rs leaves alone in the entries that it does not make.
use evebox.Base.{
  ℕ, ◌≡◌, ◌⊎◌, inl, inr, refl, true, Option, none, some, List, length, get_elem?, modify,
  length-modify, get_elem?-modify_inv, arith, subst, sym,
}
use evebox.Agent.Protocol.{ServerMessage}
use evebox.Server.AgentEntry.{AgentEntry, cancel_entry, try_send, EntryCall, entry_call}
use evebox.Server.Agents.{cancel_previous}

-- The identity of an entry is fixed, and a cancelled one stays cancelled.
pub record Frame (old new : AgentEntry) : Type 0 where
  pub same_name : new.name ≡ old.name
  pub same_generation : new.generation ≡ old.generation
  pub same_key : new.key ≡ old.key
  pub still_cancelled : old.cancelled ≡ true → new.cancelled ≡ true

pub Frame-refl : (e : AgentEntry) → Frame e e
Frame-refl e = record {
  same_name = refl;
  same_generation = refl;
  same_key = refl;
  still_cancelled = λ h. h;
}

pub Frame-cancel_entry : (e : AgentEntry) → Frame e (cancel_entry e)
unfolding cancel_entry
Frame-cancel_entry e = ground arith

pub Frame-entry_call : (call : EntryCall) (e : AgentEntry) → Frame e (entry_call call e)
unfolding entry_call
Frame-entry_call call e = ground arith

pub Frame-try_send : (m : ServerMessage) (e : AgentEntry) → Frame e (try_send m e).0
unfolding try_send
Frame-try_send m e = ground arith

-- Every entry of the new heap is framed from the one that stood at its address.
abbrev pub HeapFrame : List AgentEntry → List AgentEntry → Type 0
HeapFrame old new =
    (a : ℕ) (e : AgentEntry)
    → get_elem? new a ≡ some e
    → (e₀ : AgentEntry) × (get_elem? old a ≡ some e₀) × (Frame e₀ e)

pub HeapFrame-refl : (heap : List AgentEntry) → HeapFrame heap heap
HeapFrame-refl heap a e h = (e, h, Frame-refl e)

pub HeapFrame-modify :
    (b : ℕ) (f : AgentEntry → AgentEntry) (heap : List AgentEntry)
    → ((e : AgentEntry) → get_elem? heap b ≡ some e → Frame e (f e))
    → HeapFrame heap (modify b f heap)
HeapFrame-modify b f heap keep a e h =
    let (e₀, there, how) = get_elem?-modify_inv b a f heap h in (e₀, there, modified e₀ there how)
  where
    modified :
        (e₀ : AgentEntry)
        → get_elem? heap a ≡ some e₀
        → (e ≡ e₀) ⊎ ((b ≡ a) × (e ≡ f e₀))
        → Frame e₀ e
    modified e₀ there (inl same) = subst (Frame e₀) (sym same) (Frame-refl e₀)
    modified e₀ there (inr (at_b, changed)) =
        subst (Frame e₀) (sym changed)
          (keep e₀ (subst (λ x. get_elem? heap x ≡ some e₀) (sym at_b) there))

pub HeapFrame-cancel_previous :
    (previous : Option ℕ) (heap : List AgentEntry) → HeapFrame heap (cancel_previous previous heap)
unfolding cancel_previous
HeapFrame-cancel_previous none heap = HeapFrame-refl heap
HeapFrame-cancel_previous (some b) heap =
    HeapFrame-modify b cancel_entry heap (λ e _. Frame-cancel_entry e)

pub length-cancel_previous :
    (previous : Option ℕ) (heap : List AgentEntry)
    → length (cancel_previous previous heap) ≡ length heap
unfolding cancel_previous
length-cancel_previous none heap = refl
length-cancel_previous (some b) heap = length-modify b cancel_entry heap
