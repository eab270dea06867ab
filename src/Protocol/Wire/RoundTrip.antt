-- ===== src/Protocol/Wire/RoundTrip.antt =====
-- What the payloads of pkg/protocol/protocol.go with wire structs of their own are after encoding
-- and decoding.
use uni_chat_sdk.Prelude.{
  Bytes, Bool, List, [], ◌∷◌, eqb_iff, not, true, ◌||◌, ◌&&◌, some, ◌≡◌, ◌>>=◌, arith, ap, refl,
  ◌==◌,
}
use uni_chat_sdk.Prelude.Ints.{ℤ, pos, negsuc, is_zero_int}
use uni_chat_sdk.Prelude.Time.{Rfc3339, IsRfc3339, zero_time}
use uni_chat_sdk.Json.Folding.{fold_key, is_utf8}
use uni_chat_sdk.Json.Fields.{bind_some, well_formed, is_fresh, has_key}
use uni_chat_sdk.Json.Codecs.{int_codec, fits_int64}
use uni_chat_sdk.Json.Nested.{in_range, pointer_valid}
use uni_chat_sdk.Json.Structs.{encode_struct, decode_struct}
use uni_chat_sdk.Json.Across.{across, codec-Carries, across_structs}
use uni_chat_sdk.Protocol.Wire.{
  HistoryArgs, HistoryWire, HistoryRead, history_wire, history_args, SearchArgs, SearchWire,
  search_wire, search_args, time_or_zero,
}
use uni_chat_sdk.Protocol.Wire.Tags.{
  history_wire_struct, history_read_struct, search_wire_struct, search_read_struct, marshal_history,
  unmarshal_history, marshal_search, unmarshal_search,
}
use uni_chat_sdk.Protocol.Wire.Bounds.{time_valid, time-Carries}

abbrev pub are_texts : List Bytes → Bool
are_texts [] = true
are_texts (s ∷ l) = is_utf8 s && are_texts l

unfoldable pub history_wire_valid : HistoryWire → Bool
history_wire_valid w =
    are_texts (w.channel_id ∷ w.channel ∷ w.before ∷ w.thread_root_id ∷ [])
    && fits_int64 w.limit
    && time_valid w.since_time
    && time_valid w.until_time
    && pointer_valid int_codec w.max_pages

unfoldable pub read_history : HistoryWire → HistoryRead
read_history w = record {
  channel_id = w.channel_id;
  channel = w.channel;
  before = w.before;
  limit = w.limit;
  thread_root_id = w.thread_root_id;
  since_time = time_or_zero w.since_time;
  until_time = time_or_zero w.until_time;
  max_pages = w.max_pages;
}

unfoldable pub search_wire_valid : SearchWire → Bool
search_wire_valid w =
    are_texts (w.query ∷ w.channel ∷ w.author ∷ [])
    && time_valid w.since_time
    && time_valid w.until_time

unfoldable pub read_search : SearchWire → SearchArgs
read_search w = record {
  query = w.query;
  channel = w.channel;
  since_time = time_or_zero w.since_time;
  until_time = time_or_zero w.until_time;
  author = w.author;
}

module _ (clock : Rfc3339) (clock_ok : IsRfc3339 clock) where
  history_read-wire :
      (w : HistoryWire)
      → history_wire_valid w ≡ true
      → (encode_struct (history_wire_struct clock clock_ok) w
          >>= decode_struct (history_read_struct clock clock_ok))
        ≡ some (read_history w)
  unfolding history_wire_valid read_history history_wire_struct history_read_struct well_formed
      is_fresh has_key fold_key ◌==◌
  history_read-wire w valid =
      across_structs (history_wire_struct clock clock_ok) (history_read_struct clock clock_ok) w
        (read_history w)
        (across _ _ _ _ refl refl refl w _ _ _ (codec-Carries _ _ _ w (ground arith) (λ e. e)) (
          across _ _ _ _ refl refl refl w _ _ _ (codec-Carries _ _ _ w (ground arith) (λ e. e)) (
            across _ _ _ _ refl refl refl w _ _ _ (codec-Carries _ _ _ w (ground arith) (λ e. e)) (
              across _ _ _ _ refl refl refl w _ _ _ (codec-Carries _ _ _ w (ground arith) (λ e. e))
                (across _ _ _ _ refl refl refl w _ _ _
                  (codec-Carries _ _ _ w (ground arith) (λ e. e))
                  (across _ _ _ _ refl refl refl w _ _ _
                    (time-Carries clock clock_ok _ _ _ w (ground arith))
                    (across _ _ _ _ refl refl refl w _ _ _
                      (time-Carries clock clock_ok _ _ _ w (ground arith))
                      (across _ _ _ _ refl refl refl w _ _ _
                        (codec-Carries _ _ _ w (ground arith) (λ e. e)) refl))))))))

  search_read-wire :
      (w : SearchWire)
      → search_wire_valid w ≡ true
      → (encode_struct (search_wire_struct clock clock_ok) w
          >>= decode_struct (search_read_struct clock clock_ok))
        ≡ some (read_search w)
  unfolding search_wire_valid read_search search_wire_struct search_read_struct well_formed is_fresh
      has_key fold_key ◌==◌
  search_read-wire w valid =
      across_structs (search_wire_struct clock clock_ok) (search_read_struct clock clock_ok) w
        (read_search w)
        (across _ _ _ _ refl refl refl w _ _ _ (codec-Carries _ _ _ w (ground arith) (λ e. e)) (
          across _ _ _ _ refl refl refl w _ _ _ (codec-Carries _ _ _ w (ground arith) (λ e. e)) (
            across _ _ _ _ refl refl refl w _ _ _
              (time-Carries clock clock_ok _ _ _ w (ground arith))
              (across _ _ _ _ refl refl refl w _ _ _
                (time-Carries clock clock_ok _ _ _ w (ground arith))
                (across _ _ _ _ refl refl refl w _ _ _
                  (codec-Carries _ _ _ w (ground arith) (λ e. e)) refl)))))

-- Texts of UTF-8, numbers of 64 bits and times of the years 0 to 9999.
unfoldable pub history_valid : HistoryArgs → Bool
history_valid a =
    are_texts (a.channel_id ∷ a.channel ∷ a.before ∷ a.thread_root_id ∷ [])
    && fits_int64 a.limit
    && fits_int64 a.max_pages
    && in_range a.since_time
    && in_range a.until_time

unfoldable pub search_valid : SearchArgs → Bool
search_valid a =
    are_texts (a.query ∷ a.channel ∷ a.author ∷ [])
    && in_range a.since_time
    && in_range a.until_time

history_wire-valid :
    (a : HistoryArgs) → history_valid a ≡ true → history_wire_valid (history_wire a) ≡ true
unfolding history_valid history_wire_valid history_wire time_valid pointer_valid
history_wire-valid a h = ground arith

search_wire-valid :
    (a : SearchArgs) → search_valid a ≡ true → search_wire_valid (search_wire a) ≡ true
unfolding search_valid search_wire_valid search_wire time_valid
search_wire-valid a h = ground arith

is_zero_int-pos : (n : ℤ) → is_zero_int n ≡ true → pos 0 ≡ n
is_zero_int-pos (pos n) h = ap pos (omega (arith, (eqb_iff n 0).0 h))
is_zero_int-pos (negsuc n) h = ground arith

history_args-wire :
    (a : HistoryArgs)
    → history_args (read_history (history_wire a))
      ≡ record a { max_pages_set = a.max_pages_set || not (is_zero_int a.max_pages) }
unfolding history_args read_history history_wire time_or_zero
history_args-wire a = ground (
  arith,
  eqb_iff a.since_time zero_time,
  eqb_iff a.until_time zero_time,
  is_zero_int-pos a.max_pages,
)

search_args-wire : (a : SearchArgs) → search_args (read_search (search_wire a)) ≡ a
unfolding search_args read_search search_wire time_or_zero
search_args-wire a = ground (arith, eqb_iff a.since_time zero_time, eqb_iff a.until_time zero_time)

module _ (clock : Rfc3339) (clock_ok : IsRfc3339 clock) where
  -- The arguments of a history request whose texts are UTF-8, numbers have 64 bits and times lie in
  -- the years 0 to 9999 are encoded, and decoding what was encoded gives them back, an absent bound
  -- and a limit of pages of zero included; the one change is that a limit other than zero is marked
  -- as set.
  pub unmarshal-marshal_history :
      (a : HistoryArgs)
      → history_valid a ≡ true
      → (marshal_history clock clock_ok a >>= unmarshal_history clock clock_ok)
        ≡ some (record a { max_pages_set = a.max_pages_set || not (is_zero_int a.max_pages) })
  unfolding marshal_history unmarshal_history
  unmarshal-marshal_history a h =
      let (v, wrote, reads) =
        bind_some (encode_struct (history_wire_struct clock clock_ok) (history_wire a))
          (decode_struct (history_read_struct clock clock_ok)) (read_history (history_wire a))
          (history_read-wire clock clock_ok (history_wire a) (history_wire-valid a h)) in
      ground (arith, wrote, reads, history_args-wire a)

  -- The arguments of a search whose texts are UTF-8 and times lie in the years 0 to 9999 are encoded,
  -- and decoding what was encoded gives them back, absent bounds included.
  pub unmarshal-marshal_search :
      (a : SearchArgs)
      → search_valid a ≡ true
      → (marshal_search clock clock_ok a >>= unmarshal_search clock clock_ok) ≡ some a
  unfolding marshal_search unmarshal_search
  unmarshal-marshal_search a h =
      let (v, wrote, reads) =
        bind_some (encode_struct (search_wire_struct clock clock_ok) (search_wire a))
          (decode_struct (search_read_struct clock clock_ok)) (read_search (search_wire a))
          (search_read-wire clock clock_ok (search_wire a) (search_wire-valid a h)) in
      ground (arith, wrote, reads, search_args-wire a)
