-- ===== src/Protocol/Wire.antt =====
-- The payloads of pkg/protocol/protocol.go whose JSON goes through a wire struct of their own.
pub mod Tags
pub mod Bounds
pub mod RoundTrip
use uni_chat_sdk.Prelude.{
  ℕ, Bytes, Bool, true, false, not, ◌||◌, Option, none, some, List, if◌then◌else◌, ◌≡◌, ◌>>=◌, eqb,
}
use uni_chat_sdk.Prelude.Ints.{ℤ, pos, negsuc, is_zero_int}
use uni_chat_sdk.Prelude.Time.{Time, zero_time}

-- A pointer to a time that is absent for the zero time, as `omitempty` and as optionalTime have it.
unfoldable pub optional_time : Time → Option Time
optional_time t = if eqb t zero_time then none else some t

unfoldable pub time_or_zero : Option Time → Time
time_or_zero none = zero_time
time_or_zero (some t) = t

pub record HistoryArgs : Type 0 where
  pub channel_id : Bytes
  pub channel : Bytes
  pub before : Bytes
  pub limit : ℤ
  pub thread_root_id : Bytes
  pub since_time : Time
  pub until_time : Time
  pub max_pages : ℤ
  pub max_pages_set : Bool

pub record HistoryWire : Type 0 where
  pub channel_id : Bytes
  pub channel : Bytes
  pub before : Bytes
  pub limit : ℤ
  pub thread_root_id : Bytes
  pub since_time : Option Time
  pub until_time : Option Time
  pub max_pages : Option ℤ

-- The struct that UnmarshalJSON decodes: its times are no pointers.
pub record HistoryRead : Type 0 where
  pub channel_id : Bytes
  pub channel : Bytes
  pub before : Bytes
  pub limit : ℤ
  pub thread_root_id : Bytes
  pub since_time : Time
  pub until_time : Time
  pub max_pages : Option ℤ

unfoldable pub history_wire : HistoryArgs → HistoryWire
history_wire a = record {
  channel_id = a.channel_id;
  channel = a.channel;
  before = a.before;
  limit = a.limit;
  thread_root_id = a.thread_root_id;
  since_time = if not (eqb a.since_time zero_time) then some a.since_time else none;
  until_time = if not (eqb a.until_time zero_time) then some a.until_time else none;
  max_pages = if a.max_pages_set || not (is_zero_int a.max_pages) then some a.max_pages else none;
}

abbrev pub is_present : Option ℤ → Bool
is_present none = false
is_present (some n) = true

abbrev pub or_zero_int : Option ℤ → ℤ
or_zero_int none = pos 0
or_zero_int (some n) = n

-- Every field of the receiver is assigned: what it held before does not show.
unfoldable pub history_args : HistoryRead → HistoryArgs
history_args w = record {
  channel_id = w.channel_id;
  channel = w.channel;
  before = w.before;
  limit = w.limit;
  thread_root_id = w.thread_root_id;
  since_time = w.since_time;
  until_time = w.until_time;
  max_pages = or_zero_int w.max_pages;
  max_pages_set = is_present w.max_pages;
}

pub record SearchArgs : Type 0 where
  pub query : Bytes
  pub channel : Bytes
  pub since_time : Time
  pub until_time : Time
  pub author : Bytes

pub record SearchWire : Type 0 where
  pub query : Bytes
  pub channel : Bytes
  pub since_time : Option Time
  pub until_time : Option Time
  pub author : Bytes

unfoldable pub search_wire : SearchArgs → SearchWire
search_wire a = record {
  query = a.query;
  channel = a.channel;
  since_time = if not (eqb a.since_time zero_time) then some a.since_time else none;
  until_time = if not (eqb a.until_time zero_time) then some a.until_time else none;
  author = a.author;
}

-- The struct that UnmarshalJSON decodes has the fields of the arguments, and is copied into them.
unfoldable pub search_args : SearchArgs → SearchArgs
search_args w = record {
  query = w.query;
  channel = w.channel;
  since_time = w.since_time;
  until_time = w.until_time;
  author = w.author;
}
