-- ===== src/Proxy/Tally/Counting.antt =====
-- When the callback of a stream runs, and with which counts.
use ainode.Prelude.{
  ◌≡◌, refl, sym, ◌∙◌, ap, true, false, Option, List, [], ◌∷◌, ◌++◌, if-cases, subst,
}
use ainode.Prelude.Int.{ℤ}
use ainode.Proxy.Tally.{
  Counts, TallyReader, Payload, ReaderCall, reads, closes, read_step, read_all, trigger_complete,
  process_lines, process_line, new_tally_reader,
}

append_assoc : (xs ys zs : List (Option Payload)) → xs ++ (ys ++ zs) ≡ (xs ++ ys) ++ zs
append_assoc [] ys zs = refl
append_assoc (x ∷ xs) ys zs = ap (λ l. x ∷ l) (append_assoc xs ys zs)

-- Lines that arrive in one read count as they do in two.
pub process_lines-append :
    (xs ys : List (Option Payload)) (c : Counts)
    → process_lines (xs ++ ys) c ≡ process_lines ys (process_lines xs c)
unfolding process_lines
process_lines-append [] ys c = refl
process_lines-append (x ∷ xs) ys c = process_lines-append xs ys (process_line x c)

trigger_again : (t : TallyReader) → t.complete ≡ true → trigger_complete t ≡ t
unfolding trigger_complete
trigger_again t h = rw (trigger_complete, h) refl

trigger_first :
    (t : TallyReader)
    → t.complete ≡ false
    → trigger_complete t ≡ record t { complete = true; calls = t.calls ++ t.counts ∷ [] }
unfolding trigger_complete
trigger_first t h = rw (trigger_complete, h) refl

-- Once the callback has run, nothing calls it again.
completed_step :
    (r : ReaderCall) (t : TallyReader)
    → t.complete ≡ true
    → ((read_step t r).complete ≡ true) × ((read_step t r).calls ≡ t.calls)
unfolding read_step
completed_step (reads lines eof) t h =
    let t' : TallyReader = record t { counts = process_lines lines t.counts } in
    if-cases (λ (x : TallyReader). (x.complete ≡ true) × (x.calls ≡ t.calls)) eof
      (trigger_complete t') t'
      (λ _.
        subst (λ (x : TallyReader). (x.complete ≡ true) × (x.calls ≡ t.calls))
          (sym (trigger_again t' h)) (h, refl))
      (λ _. (h, refl))
completed_step closes t h =
    subst (λ (x : TallyReader). (x.complete ≡ true) × (x.calls ≡ t.calls)) (sym (trigger_again t h))
      (h, refl)

completed_stays :
    (rs : List ReaderCall) (t : TallyReader) → t.complete ≡ true → (read_all rs t).calls ≡ t.calls
unfolding read_all
completed_stays [] t h = refl
completed_stays (r ∷ rs) t h =
    let (c, e) = completed_step r t h in completed_stays rs (read_step t r) c ∙ e

-- The lines of the reads before the end, in order.
abbrev pub flatten : List (List (Option Payload)) → List (Option Payload)
flatten [] = []
flatten (l ∷ ls) = l ++ flatten ls

-- The calls of a stream that ends: the reads before the end, the read that answers io.EOF or the
-- Close, and whatever is called after it.
abbrev pub stream_calls :
    List (List (Option Payload)) → ReaderCall → List ReaderCall → List ReaderCall
stream_calls [] last after = last ∷ after
stream_calls (l ∷ ls) last after = reads l false ∷ stream_calls ls last after

abbrev pub last_lines : ReaderCall → List (Option Payload)
last_lines (reads lines eof) = lines
last_lines closes = []

abbrev pub Ends : ReaderCall → Type 0
Ends (reads lines eof) = eof ≡ true
Ends closes = Unit

last_step :
    (last : ReaderCall) (t : TallyReader)
    → Ends last
    → t.complete ≡ false
    → read_step t last ≡ record t {
      counts = process_lines (last_lines last) t.counts;
      complete = true;
      calls = t.calls ++ process_lines (last_lines last) t.counts ∷ [];
    }
unfolding read_step process_lines
last_step (reads lines eof) t e h =
    rw (read_step, e) (trigger_first (record t { counts = process_lines lines t.counts }) h)
last_step closes t e h = trigger_first t h

stream_from :
    (ls : List (List (Option Payload))) (last : ReaderCall) (after : List ReaderCall)
    (t : TallyReader)
    → Ends last
    → t.complete ≡ false
    → (read_all (stream_calls ls last after) t).calls
      ≡ t.calls ++ process_lines (flatten ls ++ last_lines last) t.counts ∷ []
unfolding read_all read_step
stream_from [] last after t e h =
    let ended = last_step last t e h in
    completed_stays after (read_step t last) (ap (λ (x : TallyReader). x.complete) ended)
    ∙ ap (λ (x : TallyReader). x.calls) ended
stream_from (l ∷ ls) last after t e h =
    stream_from ls last after (record t { counts = process_lines l t.counts }) e h
    ∙ ap (λ c. t.calls ++ c ∷ [])
        (sym (process_lines-append l (flatten ls ++ last_lines last) t.counts)
          ∙ ap (λ x. process_lines x t.counts) (append_assoc l (flatten ls) (last_lines last)))

-- However a stream is cut into reads of whole lines, whether it ends by io.EOF or by a Close, and
-- whatever is called after its end, the settlement callback runs once, with the counts of all the
-- lines in order.
pub completes_once :
    (prompt : ℤ) (ls : List (List (Option Payload))) (last : ReaderCall) (after : List ReaderCall)
    → Ends last
    → (read_all (stream_calls ls last after) (new_tally_reader prompt)).calls
      ≡ process_lines (flatten ls ++ last_lines last) (new_tally_reader prompt).counts ∷ []
completes_once prompt ls last after e = stream_from ls last after (new_tally_reader prompt) e refl
