-- ===== src/Iceberg/Predicates/Model.antt =====
-- Two days and their rows: what is assumed of the standard library and of pyiceberg can hold.
use community_integrations.Base.{
  ◌≡◌, refl, ℕ, String, List, ok, nat_eq, string_eq, err, Result, if◌then◌else◌, ◌==◌,
}
use community_integrations.Base.Lists.{leb}
use community_integrations.Iceberg.Error.{Error, other}
use community_integrations.Iceberg.Partitions.{Partitions, time_window, keys}
use community_integrations.Iceberg.Predicates.{Bound, at_time, on_day, Clock, Casts}
use community_integrations.Iceberg.Predicates.Select.{IsCasts, Rows}

-- A clock of three times on two days.
pub data Instant : Type 0 where
  midnight noon next_midnight : Instant

pub data Date : Type 0 where
  today tomorrow : Date

abbrev pub texts : Bound Instant Date → String
texts (at_time midnight) = "2024-01-01T00:00:00"
texts (at_time noon) = "2024-01-01T12:00:00"
texts (at_time next_midnight) = "2024-01-02T00:00:00"
texts (on_day today) = "2024-01-01"
texts (on_day tomorrow) = "2024-01-02"

abbrev pub day_of : Instant → Date
day_of next_midnight = tomorrow
day_of _ = today

abbrev pub clock : Clock Instant Date
clock = record { naive = λ t. t; day = day_of; isoformat = texts }

unfoldable pub read_text : String → Bound Instant Date
read_text s =
    if s == "2024-01-01T00:00:00"
    then at_time midnight
    else if s == "2024-01-01T12:00:00"
    then at_time noon
    else if s == "2024-01-02T00:00:00"
    then at_time next_midnight
    else if s == "2024-01-01"
    then on_day today
    else on_day tomorrow

abbrev pub rank : Bound Instant Date → ℕ
rank (at_time midnight) = 0
rank (at_time noon) = 1
rank (at_time next_midnight) = 2
rank (on_day today) = 0
rank (on_day tomorrow) = 2

pub record Row : Type 0 where
  pub ts : Bound Instant Date
  pub country : String

abbrev pub rows : Rows Row (Bound Instant Date)
rows = record {
  text = λ row column. row.country;
  moment = λ row column. row.ts;
  not_after = λ a b. leb (rank a) (rank b);
  read = read_text;
}

pub reads : (b : Bound Instant Date) → read_text (texts b) ≡ b
unfolding read_text string_eq
reads (at_time midnight) = refl
reads (at_time noon) = refl
reads (at_time next_midnight) = refl
reads (on_day today) = refl
reads (on_day tomorrow) = refl

abbrev pub unpacked : Partitions Instant → Result Error (Instant × Instant)
unpacked (time_window s e) = ok (s, e)
unpacked _ = err (other "TypeError")

abbrev pub iterated : Partitions Instant → Result Error (List String)
iterated (keys ks) = ok ks
iterated _ = err (other "TypeError")

abbrev pub casts : Casts Instant
casts = record { unpacked = unpacked; iterated = iterated }

pub casts-IsCasts : IsCasts casts
casts-IsCasts = record { of_window = λ s e. refl; of_keys = λ ks. refl }
