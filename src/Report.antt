-- ===== src/Report.antt =====
-- backend/srs/utils/AppReport.hpp and .cpp, with the statistics of a task in
-- backend/srs/workflow/BaseTask.hpp and the time stamps of a command in
-- backend/srs/connections/ConnectionBase.cpp. A text is the list of its bytes, a time in milliseconds
-- the number of its nanoseconds, and a floating-point number the quotient that it stands for. What a
-- table is made of are its rows; how the library tabulate draws them is left out.
pub mod Times
pub mod Rows
pub mod Tests
use srs_control.Base.Int.{ℤ, pos, sub_ℕ}
use srs_control.Base.{
  ℕ, zero, suc, ◌+◌, ◌-◌, Bool, true, false, List, [], ◌∷◌, ◌++◌, map, ◌==◌, ltb, if◌then◌else◌,
}
use srs_control.Utils.Text.{eq_bytes}

pub record TaskStat : Type 0 where
  pub total_time_ns : ℕ
  pub total_sample_size : ℕ

pub record FecSwitchStat : Type 0 where
  pub send_time : ℕ
  pub receiv_time : ℕ
  pub send_time_offset : ℕ
  pub connection_name : List ℕ

pub record FrameReadingStat : Type 0 where
  pub n_frames : ℕ
  pub total_time_ns : ℕ
  pub total_bytes_read : ℕ

pub record QueueStat : Type 0 where
  pub empty_trash : ℕ
  pub full_trash : ℕ
  pub full_valid : ℕ

-- The stamps of one socket, each with its remote endpoint.
abbrev pub SocketTimes : Type 0
SocketTimes = List (List ℕ × FecSwitchStat)

pub record AppReport : Type 0 where
  pub task_records : List (List ℕ × List TaskStat)
  pub sink_records : List (List ℕ × List ℕ)
  pub switch_socket_records : List (List ℕ × SocketTimes)
  pub frame_reading_records : List (List ℕ × FrameReadingStat)
  pub queue_record : QueueStat

abbrev pub create : AppReport
create = record {
  task_records = [];
  sink_records = [];
  switch_socket_records = [];
  frame_reading_records = [];
  queue_record = record { empty_trash = 0; full_trash = 0; full_valid = 0 };
}

-- `std::map::try_emplace`: an entry that is there is kept.
unfoldable pub try_emplace {ℓ} :
    {A : Type ℓ} → List (List ℕ × A) → (name : List ℕ) → A → List (List ℕ × A)
try_emplace [] name a = (name, a) ∷ []
try_emplace ((n, b) ∷ rest) name a =
    let others = try_emplace rest name a in
    if eq_bytes n name then (n, b) ∷ rest else (n, b) ∷ others

unfoldable pub register_switch_socket_result :
    AppReport → (socket_name : List ℕ) → SocketTimes → AppReport
register_switch_socket_result r socket_name socket_times = record r {
  switch_socket_records = r.switch_socket_records ++ (socket_name, socket_times) ∷ [];
}

unfoldable pub register_frame_reading_result :
    AppReport → (name : List ℕ) → FrameReadingStat → AppReport
register_frame_reading_result r name stat = record r {
  frame_reading_records = r.frame_reading_records ++ (name, stat) ∷ [];
}

unfoldable pub register_task_result : AppReport → (task_name : List ℕ) → List TaskStat → AppReport
register_task_result r task_name process_times = record r {
  task_records = try_emplace r.task_records task_name process_times;
}

unfoldable pub register_output_sink_result : AppReport → (sink_name : List ℕ) → List ℕ → AppReport
register_output_sink_result r sink_name bytes_written = record r {
  sink_records = try_emplace r.sink_records sink_name bytes_written;
}

unfoldable pub register_queue_result : AppReport → QueueStat → AppReport
register_queue_result r stat = record r { queue_record = stat }

-- The time stamps of `send_message`, at the two readings of the clock.
unfoldable pub time_stamp : (connection_name : List ℕ) (before after : ℕ) → FecSwitchStat
time_stamp connection_name before after = record {
  send_time = before;
  receiv_time = after;
  send_time_offset = 0;
  connection_name = connection_name;
}

-- `std::ranges::sort`, by the time of sending.
unfoldable pub insert : List ℕ × FecSwitchStat → SocketTimes → SocketTimes
insert s [] = s ∷ []
insert s (t ∷ stats) =
    let rest = insert s stats in if ltb t.1.send_time s.1.send_time then t ∷ rest else s ∷ t ∷ stats

unfoldable pub sort : SocketTimes → SocketTimes
sort [] = []
sort (s ∷ stats) = insert s (sort stats)

unfoldable pub set_offset : (first_time : ℕ) → List ℕ × FecSwitchStat → List ℕ × FecSwitchStat
set_offset first_time (name, stat) =
    (name, record stat { send_time_offset = stat.send_time - first_time })

unfoldable pub set_offsets : SocketTimes → SocketTimes
set_offsets [] = []
set_offsets ((name, stat) ∷ stats) = map (set_offset stat.send_time) ((name, stat) ∷ stats)

-- The loop over the sockets of `report_socket_result`.
unfoldable pub sort_socket_result : AppReport → AppReport
sort_socket_result r = record r {
  switch_socket_records =
      map (λ entry. (entry.0, set_offsets (sort entry.1))) r.switch_socket_records;
}

-- What stands in a cell.
pub data Cell : Type 0 where
  text : List ℕ → Cell
  number : ℕ → Cell
  signed : ℤ → Cell
  quotient : ℕ → ℕ → Cell
  not_a_number : Cell
  offset : ℕ → ℕ → Cell

abbrev pub Row : Type 0
Row = List Cell

-- The row of a part of a record: only the first one has the name.
unfoldable pub first_cell : (n_pipe : ℕ) (name : List ℕ) → List ℕ
first_cell zero name = name
first_cell (suc n) name = []

-- `format_records` on records that are split into parts.
unfoldable pub rows_of {ℓ} :
    {A : Type ℓ} → (ℕ → A → Row) → (name : List ℕ) (n_pipe : ℕ) → List A → List Row
rows_of row_adder name n_pipe [] = []
rows_of row_adder name n_pipe (a ∷ split_record) =
    (text (first_cell n_pipe name) ∷ row_adder n_pipe a)
    ∷ rows_of row_adder name (n_pipe + 1) split_record

unfoldable pub format_split {ℓ} : {A : Type ℓ} → (ℕ → A → Row) → List (List ℕ × List A) → List Row
format_split row_adder [] = []
format_split row_adder ((name, split_record) ∷ records) =
    rows_of row_adder name 0 split_record ++ format_split row_adder records

-- `format_records` on records that are whole.
unfoldable pub format_records {ℓ} : {A : Type ℓ} → (A → Row) → List (List ℕ × A) → List Row
format_records row_adder [] = []
format_records row_adder ((name, a) ∷ records) =
    (text name ∷ row_adder a) ∷ format_records row_adder records

unfoldable pub sink_row : ℕ → (bytes : ℕ) → Row
sink_row idx bytes = number idx ∷ (if bytes == 0 then not_a_number else quotient bytes 1000) ∷ []

unfoldable pub task_row : ℕ → TaskStat → Row
task_row idx stat =
    number idx
    ∷ quotient stat.total_time_ns 1000000
    ∷ (if stat.total_time_ns == 0
        then number 0
        else quotient stat.total_time_ns stat.total_sample_size)
    ∷ number stat.total_sample_size
    ∷ []

unfoldable pub socket_row : ℕ → List ℕ × FecSwitchStat → Row
socket_row idx (remote_socket, stat) =
    text remote_socket
    ∷ text stat.connection_name
    ∷ offset stat.send_time stat.send_time_offset
    ∷ signed (sub_ℕ stat.receiv_time stat.send_time)
    ∷ []

unfoldable pub frame_row : FrameReadingStat → Row
frame_row stat =
    quotient stat.total_time_ns stat.n_frames
    ∷ quotient stat.total_bytes_read stat.n_frames
    ∷ number stat.n_frames
    ∷ []

unfoldable pub queue_row : QueueStat → Row
queue_row stat = number stat.empty_trash ∷ number stat.full_trash ∷ number stat.full_valid ∷ []

unfoldable pub report_task_result : AppReport → List Row
report_task_result r = format_split task_row r.task_records

unfoldable pub report_sink_file_result : AppReport → List Row
report_sink_file_result r = format_split sink_row r.sink_records

unfoldable pub report_socket_result : AppReport → List Row
report_socket_result r = format_split socket_row (sort_socket_result r).switch_socket_records

unfoldable pub report_frame_reading_result : AppReport → List Row
report_frame_reading_result r = format_records frame_row r.frame_reading_records

abbrev pub counts : List ℕ
counts = b'C' ∷ b'o' ∷ b'u' ∷ b'n' ∷ b't' ∷ b's' ∷ []

unfoldable pub report_buffer_result : AppReport → List Row
report_buffer_result r = (text counts ∷ queue_row r.queue_record) ∷ []

-- `BaseTask::run_once` on the statistics of one line, at the two readings of the clock.
unfoldable pub run_once_stat : TaskStat → (before after : ℕ) → TaskStat
run_once_stat stat before after = record {
  total_time_ns = stat.total_time_ns + (after - before);
  total_sample_size = stat.total_sample_size + 1;
}
