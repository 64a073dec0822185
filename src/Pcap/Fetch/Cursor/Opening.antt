-- ===== src/Pcap/Fetch/Cursor/Opening.antt =====
-- Opening a file of a group in src/pcap/fetch.rs: the filter that it is read under.
use evebox.Base.{ℕ, ◌≡◌, refl, true, Option, none, some, List, [], String}
use evebox.Pcap.File.{Packet}
use evebox.Pcap.Fetch.{
  BpfProgram, CompileResult, compiled, compile_failed, FileResult, capture, unreadable,
  fd_exhausted, Env, Matcher, Progress, passes,
}
use evebox.Pcap.Fetch.Cursor.{
  Opened, opened, skipped, open_failed, compile_expression, compile_flow, compile_filter,
  open_result,
}
use evebox.Pcap.Fetch.Keeps.{Keeps, Keeps-refl, Keeps-trans}

-- The filter of a file of the link type, compiled from what was asked for.
pub data IsFilter (env : Env) (m : Matcher) (linktype : ℕ) : Option BpfProgram → Type 0 where
  by_expression :
      {expression : String} {program : BpfProgram}
      → m.expression ≡ some expression
      → env.compile linktype expression ≡ compiled program
      → IsFilter env m linktype (some program)
  by_wrapped :
      {wrapped base : String} {program : BpfProgram}
      → m.flow_expressions ≡ some (wrapped, base)
      → env.compile linktype wrapped ≡ compiled program
      → IsFilter env m linktype (some program)
  by_base :
      {wrapped base : String} {program : BpfProgram}
      → m.flow_expressions ≡ some (wrapped, base)
      → env.compile linktype base ≡ compiled program
      → IsFilter env m linktype (some program)
  unfiltered : m.expression ≡ none → m.flow_expressions ≡ none → IsFilter env m linktype none

-- A packet that was asked for: inside the window, where there is one, and passed by the filter.
abbrev pub Matches : Env → Matcher → ℕ → Packet → Type 0
Matches env m linktype packet =
    (program : Option BpfProgram) × (IsFilter env m linktype program)
    × (passes m program packet ≡ true)

-- The packets of a file that can be read.
abbrev pub packets_in : FileResult → List Packet
packets_in (capture linktype packets) = packets
packets_in unreadable = []
packets_in (fd_exhausted _) = []

-- What opening a file leaves: its packets under its filter, or the file is skipped.
abbrev pub OpenedOk : Env → Matcher → List Packet → Progress → Opened → Type 0
OpenedOk env m packets p (opened c p') =
    (IsFilter env m c.linktype c.filter_program) × (c.packets ≡ packets) × (Keeps p p')
OpenedOk env m packets p (skipped p') = Keeps p p'
OpenedOk env m packets p (open_failed e p') = Keeps p p'

OpenedOk-trans :
    (env : Env) (m : Matcher) (packets : List Packet) (p q : Progress) (r : Opened)
    → Keeps p q
    → OpenedOk env m packets q r
    → OpenedOk env m packets p r
OpenedOk-trans env m packets p q (opened c p') k h = (h.0, h.1, Keeps-trans p q p' k h.2)
OpenedOk-trans env m packets p q (skipped p') k h = Keeps-trans p q p' k h
OpenedOk-trans env m packets p q (open_failed e p') k h = Keeps-trans p q p' k h

compile_expression-lem :
    (env : Env) (m : Matcher) (linktype : ℕ) (packets : List Packet) (path : String) (p : Progress)
    {e : String} (r : CompileResult)
    → m.expression ≡ some e
    → env.compile linktype e ≡ r
    → OpenedOk env m packets p (compile_expression r (linktype, packets, path) p)
unfolding compile_expression
compile_expression-lem env m linktype packets path p (compiled program) he h = (
  by_expression he h,
  refl,
  record { writer = refl; bytes = refl; packets = refl; truncated = refl; sticky = λ h. h },
)
compile_expression-lem env m linktype packets path p (compile_failed message) he h = record {
  writer = refl;
  bytes = refl;
  packets = refl;
  truncated = refl;
  sticky = λ h. h;
}

compile_flow-lem :
    (env : Env) (m : Matcher) (linktype : ℕ) (packets : List Packet) (path : String) (p : Progress)
    {wrapped base : String} (r s : CompileResult)
    → m.flow_expressions ≡ some (wrapped, base)
    → env.compile linktype wrapped ≡ r
    → env.compile linktype base ≡ s
    → OpenedOk env m packets p (compile_flow r s (linktype, packets, path) p)
unfolding compile_flow
compile_flow-lem env m linktype packets path p (compiled program) s hf h k =
    (by_wrapped hf h, refl, Keeps-refl p)
compile_flow-lem env m linktype packets path p (compile_failed _) (compiled program) hf h k =
    (by_base hf k, refl, Keeps-refl p)
compile_flow-lem env m linktype packets path p (compile_failed _) (compile_failed _) hf h k =
    Keeps-refl p

compile_filter-lem :
    (env : Env) (m : Matcher) (linktype : ℕ) (packets : List Packet) (path : String) (p : Progress)
    (e : Option String) (f : Option (String × String))
    → m.expression ≡ e
    → m.flow_expressions ≡ f
    → OpenedOk env m packets p (compile_filter env e f (linktype, packets, path) p)
unfolding compile_filter
compile_filter-lem env m linktype packets path p (some expression) f he hf =
    compile_expression-lem env m linktype packets path p (env.compile linktype expression) he refl
compile_filter-lem env m linktype packets path p none (some (wrapped, base)) he hf =
    compile_flow-lem env m linktype packets path p (env.compile linktype wrapped)
      (env.compile linktype base) hf refl refl
compile_filter-lem env m linktype packets path p none none he hf =
    (unfiltered he hf, refl, Keeps-refl p)

pub open_result-lem :
    (env : Env) (m : Matcher) (r : FileResult) (path : String) (p : Progress)
    → OpenedOk env m (packets_in r) p (open_result env m r path p)
unfolding open_result
open_result-lem env m unreadable path p = record {
  writer = refl;
  bytes = refl;
  packets = refl;
  truncated = refl;
  sticky = λ h. h;
}
open_result-lem env m (fd_exhausted message) path p = Keeps-refl p
open_result-lem env m (capture linktype packets) path p =
    OpenedOk-trans env m packets p _ (open_result env m (capture linktype packets) path p)
      (record { writer = refl; bytes = refl; packets = refl; truncated = refl; sticky = λ h. h })
      (compile_filter-lem env m linktype packets path _ m.expression m.flow_expressions refl refl)
