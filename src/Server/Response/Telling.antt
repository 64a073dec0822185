-- ===== src/Server/Response/Telling.antt =====
-- What a client sees of a download (src/server/api/pcap.rs), by how its frames end.
use evebox.Base.{
  ◌≡◌, refl, sym, ap, ◌∙◌, subst, Bool, true, false, Option, none, some, ◌⊎◌, inl, inr, List, [],
  ◌∷◌, ◌++◌, ℕ, if_lem, concat, if◌then◌else◌,
}
use mathlib.Core.List.{append_assoc, append-nil}
use evebox.Pcap.File.{put_u16_le, put_u32_le, create_header_with_snaplen}
use evebox.Server.Download.{
  ProducerError, no_candidate_files, no_match, format, io, ProducerResult, succeeded, failed,
  ProducerEnd, done, ChannelWriter, producer_end,
}
use evebox.Server.Download.Framing.{IsPrefix, framed}
use evebox.Server.Download.Producing.{Covers}
use evebox.Server.Response.{
  Item, ended_unexpectedly, BodyState, new_completion, new_body, mark, is_fault, is_truncated,
  read_body, Response, refused, empty_pcap_bytes, empty_capture, whole, streaming, empty_response,
  single_chunk, respond,
}
use evebox.Server.Response.Reading.{
  received, is_faulty, rounds, yields, received-yields, is_faulty-yields, last_items,
  read_body-ended, read_body-torn,
}

-- What a client sees of an extraction that answers `result` if its writer does not fail, where the
-- producer ends with `final`. A success delivers the whole output, ends cleanly and tells whether the
-- capture is truncated. After a failure the bytes are the beginning of the output, and the transfer
-- is torn unless the extraction itself has found no files or no packets.
abbrev pub Told :
    (result final : ProducerResult) → (content out : List ℕ) → (faulty truncated : Bool) → Type 0
Told result (succeeded stats) content out faulty truncated =
    (result ≡ succeeded stats) × (content ≡ out) × (faulty ≡ false) × (truncated ≡ stats.truncated)
Told result (failed error) content out faulty truncated =
    (IsPrefix content out)
    × (truncated ≡ false)
    × ((faulty ≡ true)
        ⊎ ((faulty ≡ false)
            × (is_fault (producer_end (failed error)) ≡ false)
            × (result ≡ failed error)))

-- What does not say whether the capture is truncated leaves that open.
abbrev pub ToldBy :
    Option Bool
    → (result final : ProducerResult) → (content out : List ℕ) → (faulty : Bool) → Type 0
ToldBy none result final content out faulty =
    (truncated : Bool) × (Told result final content out faulty truncated)
ToldBy (some truncated) result final content out faulty =
    Told result final content out faulty truncated

abbrev pub IsRead :
    (result final : ProducerResult) → List ℕ → Option (List Item × BodyState) → Type 0
IsRead result final out none = ⊥
IsRead result final out (some (items, s)) =
    (ToldBy s.completion result final (received items) out (is_faulty items)) × (s.armed ≡ false)

-- An end without output, after which a capture without packets is what there is to give: a success
-- that wrote nothing, or an extraction that found no files or no packets.
abbrev pub IsEmptyEnd : (result final : ProducerResult) → List ℕ → Type 0
IsEmptyEnd result (succeeded stats) out = (result ≡ succeeded stats) × (out ≡ [])
IsEmptyEnd result (failed error) out =
    (is_fault (producer_end (failed error)) ≡ false) × (result ≡ failed error)

-- A refusal has a reason, and every other response tells what the client sees. An empty capture is a
-- file header for Ethernet, with a snapshot length of 262,144 bytes, and does not tell whether it is
-- truncated.
abbrev pub IsAnswer :
    (in_time : Bool) → (result final : ProducerResult) → List ℕ → Response → Type 0
IsAnswer in_time result final out (refused status code) =
    (in_time ≡ false) ⊎ ((error : ProducerError) × (final ≡ failed error))
IsAnswer in_time result final out (empty_capture content) =
    (content ≡ create_header_with_snaplen 1 262_144) × (IsEmptyEnd result final out)
IsAnswer in_time result final out (whole truncated content) =
    Told result final content out false truncated
IsAnswer in_time result final out (streaming s) = IsRead result final out (read_body (rounds s) s)

pub two_queued :
    (first second rest : List ℕ) → (first ++ (second ++ [])) ++ rest ≡ first ++ (second ++ rest)
two_queued first second rest =
    ap (λ b. (first ++ b) ++ rest) (append-nil second) ∙ append_assoc first second rest

abbrev pub IsAnswered :
    (native in_time ready : Bool)
    → (result : ProducerResult) → List ℕ
    → Option (ProducerResult × ChannelWriter)
    → Type 0
IsAnswered native in_time ready result out none = ⊥
IsAnswered native in_time ready result out (some (final, w)) =
    IsAnswer in_time result final out (respond native in_time ready w.frames)

flag_lem : (b : Bool) → (if b then true else false) ≡ b
flag_lem true = refl
flag_lem false = refl

-- A terminal frame tells the result.
Covers-Told :
    (result : ProducerResult) (content out : List ℕ)
    → Covers result content out
    → Told result result content out
        (is_fault (producer_end result))
        (if is_truncated (producer_end result) then true else false)
unfolding producer_end is_fault is_truncated
Covers-Told (succeeded stats) content out e = (refl, e, refl, flag_lem stats.truncated)
Covers-Told (failed no_candidate_files) content out p = (p, refl, inr (refl, refl, refl))
Covers-Told (failed (no_match stats)) content out p = (p, refl, inr (refl, refl, refl))
Covers-Told (failed (format message)) content out p = (p, refl, inl refl)
Covers-Told (failed (io kind)) content out p = (p, refl, inl refl)

-- The bytes are those of a header that the writer of captures would give.
empty_pcap_bytes_lem : empty_pcap_bytes ≡ create_header_with_snaplen 1 262_144
unfolding empty_pcap_bytes create_header_with_snaplen put_u32_le put_u16_le
empty_pcap_bytes_lem = refl

pub empty_response-IsAnswer :
    (native in_time : Bool) (result : ProducerResult) (out : List ℕ)
    → Covers result [] out
    → IsAnswer in_time result result out (empty_response native (producer_end result))
unfolding producer_end empty_response is_fault
empty_response-IsAnswer true in_time (succeeded stats) out e = (empty_pcap_bytes_lem, (refl, sym e))
empty_response-IsAnswer false in_time (succeeded stats) out e = (refl, e, refl, refl)
empty_response-IsAnswer true in_time (failed no_candidate_files) out p =
    (empty_pcap_bytes_lem, (refl, refl))
empty_response-IsAnswer false in_time (failed no_candidate_files) out p = inr (_, refl)
empty_response-IsAnswer true in_time (failed (no_match stats)) out p =
    (empty_pcap_bytes_lem, (refl, refl))
empty_response-IsAnswer false in_time (failed (no_match stats)) out p = inr (_, refl)
empty_response-IsAnswer native in_time (failed (format message)) out p = inr (_, refl)
empty_response-IsAnswer native in_time (failed (io kind)) out p = inr (_, refl)

pub single_chunk-IsAnswer :
    (in_time : Bool) (result : ProducerResult) (first out : List ℕ)
    → Covers result first out
    → IsAnswer in_time result result out (single_chunk first (producer_end result))
unfolding producer_end single_chunk is_fault is_truncated
single_chunk-IsAnswer in_time (succeeded stats) first out e = (refl, e, refl, refl)
single_chunk-IsAnswer in_time (failed no_candidate_files) first out p =
    (p, refl, inr (refl, refl, refl))
single_chunk-IsAnswer in_time (failed (no_match stats)) first out p =
    (p, refl, inr (refl, refl, refl))
single_chunk-IsAnswer in_time (failed (format message)) first out p = inr (_, refl)
single_chunk-IsAnswer in_time (failed (io kind)) first out p = inr (_, refl)

last_items-received : (end : ProducerEnd) → received (last_items end) ≡ []
last_items-received end =
    if_lem (λ items. received items ≡ []) (is_fault end) _ _ (λ _. refl) (λ _. refl)

last_items-is_faulty : (end : ProducerEnd) → is_faulty (last_items end) ≡ is_fault end
last_items-is_faulty end =
    if_lem (λ items. is_faulty items ≡ is_fault end) (is_fault end) _ _ (λ e. sym e) (λ e. sym e)

mark-ToldBy :
    (native : Bool) (end : ProducerEnd) (result final : ProducerResult) (content out : List ℕ)
    (faulty : Bool)
    → Told result final content out faulty (if is_truncated end then true else false)
    → ToldBy (mark (new_completion native) (is_truncated end)) result final content out faulty
unfolding new_completion mark
mark-ToldBy true end result final content out faulty told = (_, told)
mark-ToldBy false end result final content out faulty told = told

new_completion-ToldBy :
    (native : Bool) (result final : ProducerResult) (content out : List ℕ) (faulty : Bool)
    → Told result final content out faulty false
    → ToldBy (new_completion native) result final content out faulty
unfolding new_completion
new_completion-ToldBy true result final content out faulty told = (false, told)
new_completion-ToldBy false result final content out faulty told = told

-- A body that is read to its terminal frame.
pub streaming-ended :
    (native in_time : Bool) (result : ProducerResult) (out : List ℕ) (queued chunks : List (List ℕ))
    → Covers result (concat queued ++ concat chunks) out
    → IsAnswer in_time result result out
        (streaming (new_body native (framed chunks ++ done (producer_end result) ∷ []) queued))
streaming-ended native in_time result out queued chunks covers =
    let end = producer_end result in
    let items = yields queued (yields chunks (last_items end)) in
    let content : received items ≡ concat queued ++ concat chunks =
      received-yields queued (yields chunks (last_items end))
      ∙ ap (λ b. concat queued ++ b)
          (received-yields chunks (last_items end)
            ∙ ap (λ b. concat chunks ++ b) (last_items-received end)
            ∙ append-nil (concat chunks)) in
    let faulty : is_faulty items ≡ is_fault end =
      is_faulty-yields queued (yields chunks (last_items end))
      ∙ is_faulty-yields chunks (last_items end)
      ∙ last_items-is_faulty end in
    let truncated = if is_truncated end then true else false in
    let told = Covers-Told result (concat queued ++ concat chunks) out covers in
    subst (IsRead result result out) (sym (read_body-ended native queued chunks end)) (
      mark-ToldBy native end result result (received items) out (is_faulty items) (
          subst (λ b. Told result result b out (is_faulty items) truncated) (sym content)
            (subst (λ f. Told result result (concat queued ++ concat chunks) out f truncated)
              (sym faulty) told)),
      refl,
    )

-- A body whose producer has left no terminal frame.
pub streaming-torn :
    (native in_time : Bool) (result : ProducerResult) (error : ProducerError) (out : List ℕ)
    (queued chunks : List (List ℕ))
    → IsPrefix (concat queued ++ concat chunks) out
    → IsAnswer in_time result
        (failed error)
        out
        (streaming (new_body native (framed chunks ++ []) queued))
streaming-torn native in_time result error out queued chunks p =
    let last = ended_unexpectedly ∷ [] in
    let content : received (yields queued (yields chunks last)) ≡ concat queued ++ concat chunks =
      received-yields queued (yields chunks last)
      ∙ ap (λ b. concat queued ++ b) (received-yields chunks last ∙ append-nil (concat chunks)) in
    subst (IsRead result (failed error) out) (sym (read_body-torn native queued chunks)) (
      new_completion-ToldBy native result (failed error) _ out _ (
        subst (λ b. IsPrefix b out) (sym content) p,
        refl,
        inl (is_faulty-yields queued (yields chunks last) ∙ is_faulty-yields chunks last),
      ),
      refl,
    )
