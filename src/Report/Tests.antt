-- ===== src/Report/Tests.antt =====
-- Runs of backend/srs/utils/AppReport.cpp.
use srs_control.Base.{◌≡◌, refl, [], ◌∷◌, map}
use srs_control.Report.{
  SocketTimes, AppReport, create, time_stamp, sort_socket_result, sort, insert, set_offset,
  set_offsets,
}
use srs_control.Report.Times.{AllReported, send_time_of, sort_socket_result_lem}

abbrev stamps : SocketTimes
stamps =
    (1 ∷ [], time_stamp [] 30 35)
    ∷ (2 ∷ [], time_stamp [] 10 40)
    ∷ (3 ∷ [], time_stamp [] 20 21)
    ∷ []

ordered : map send_time_of (set_offsets (sort stamps)) ≡ 10 ∷ 20 ∷ 30 ∷ []
unfolding set_offsets sort insert set_offset time_stamp
ordered = refl

abbrev report : AppReport
report = record create { switch_socket_records = (7 ∷ [], stamps) ∷ [] }

sort_socket_result_lem_example :
    AllReported ((7 ∷ [], stamps) ∷ []) (sort_socket_result report).switch_socket_records
sort_socket_result_lem_example = sort_socket_result_lem report
