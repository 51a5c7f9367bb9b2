-- ===== src/Proxy/Tally.antt =====
-- TallyReader of internal/proxy/tally_reader.go. What a line of the stream carries is the payload
-- that the provider's adapter and encoding/json make of it, a parameter; so is the tokenizer.
pub mod Counting
use ainode.Prelude.{
  ℕ, Bool, true, false, not, ◌&&◌, ◌||◌, Option, none, some, List, [], ◌∷◌, ◌++◌, if◌then◌else◌,
}
use ainode.Prelude.Int.{ℤ, pos, ◌+ℤ◌, ◌-ℤ◌, ltb_ℤ, int64}

-- payload.Usage; `cached_tokens` is that of prompt_tokens_details, if it is there.
pub record Usage : Type 0 where
  pub prompt_tokens : ℤ
  pub completion_tokens : ℤ
  pub cached_tokens : Option ℤ
  pub cache_hit_tokens : ℤ
  pub cache_miss_tokens : ℤ

-- A payload that parsed: its usage, and how many tokens the content of its first choice counts,
-- by the tokenizer or by strings.Fields; none if there is no content.
pub record Payload : Type 0 where
  pub usage : Option Usage
  pub content_tokens : Option ℤ

pub record Counts : Type 0 where
  pub prompt : ℤ
  pub counted : ℤ
  pub cache_hit : ℤ
  pub cache_miss : ℤ

pub record TallyReader : Type 0 where
  pub counts : Counts
  pub complete : Bool
  pub calls : List Counts

abbrev pub is_positive : ℤ → Bool
is_positive a = ltb_ℤ (pos 0) a

abbrev pub or_kept : ℤ → ℤ → ℤ
or_kept a kept = if is_positive a then a else kept

abbrev pub cached_of : Option ℤ → ℤ
cached_of none = pos 0
cached_of (some c) = c

-- The block under `if payload.Usage != nil`.
unfoldable pub take_usage : Usage → Counts → Counts
take_usage u c =
    let prompt = or_kept u.prompt_tokens c.prompt in
    let cached = cached_of u.cached_tokens in
    let explicit = is_positive u.cache_hit_tokens || is_positive u.cache_miss_tokens in
    record {
      prompt = prompt;
      counted = or_kept u.completion_tokens c.counted;
      cache_hit =
          if explicit
          then u.cache_hit_tokens
          else if is_positive cached
          then cached
          else c.cache_hit;
      cache_miss =
          if explicit
          then u.cache_miss_tokens
          else if is_positive cached
          then int64 (prompt -ℤ cached)
          else c.cache_miss;
    }

unfoldable pub count_content : Option ℤ → Counts → Counts
count_content none c = c
count_content (some n) c = record c { counted = int64 (c.counted +ℤ n) }

unfoldable pub process_usage : Option Usage → Option ℤ → Counts → Counts
unfolding take_usage count_content
process_usage none content c = count_content content c
process_usage (some u) content c =
    if is_positive u.completion_tokens
    then take_usage u c
    else count_content content (take_usage u c)

-- The body of the loop, on the payload of a line; none for a line that is skipped.
unfoldable pub process_line : Option Payload → Counts → Counts
unfolding process_usage
process_line none c = c
process_line (some p) c = process_usage p.usage p.content_tokens c

unfoldable pub process_lines : List (Option Payload) → Counts → Counts
unfolding process_line
process_lines [] c = c
process_lines (l ∷ ls) c = process_lines ls (process_line l c)

-- completeOnce.Do: the callback is called once, with the counts of that moment.
unfoldable pub trigger_complete : TallyReader → TallyReader
trigger_complete t =
    if t.complete then t else record t { complete = true; calls = t.calls ++ t.counts ∷ [] }

-- A Read that answers these bytes' lines, and io.EOF or not; a Close.
pub data ReaderCall : Type 0 where
  reads : List (Option Payload) → Bool → ReaderCall
  closes : ReaderCall

unfoldable pub read_step : TallyReader → ReaderCall → TallyReader
unfolding process_lines trigger_complete
read_step t (reads lines eof) =
    let t' = record t { counts = process_lines lines t.counts } in
    if eof then trigger_complete t' else t'
read_step t closes = trigger_complete t

unfoldable pub read_all : List ReaderCall → TallyReader → TallyReader
unfolding read_step
read_all [] t = t
read_all (r ∷ rs) t = read_all rs (read_step t r)

abbrev pub new_tally_reader : ℤ → TallyReader
new_tally_reader prompt_tokens = record {
  counts = record {
    prompt = prompt_tokens;
    counted = pos 0;
    cache_hit = pos 0;
    cache_miss = pos 0;
  };
  complete = false;
  calls = [];
}
