-- ===== src/Rtc/Writers/Tests.antt =====
-- rtc/sender.go and rtc/feedback_inferer.go: the writers on a timeout, and their law there.
use rtq_go_endpoint.Common.{◌≡◌, ◌↔◌, refl, true, none, some}
use rtq_go_endpoint.Rtc.Writers.{Error, lasting, is_fatal, default_answer, inferring_answer}
use rtq_go_endpoint.Rtc.Writers.Laws.{IsFatal, default-inferring_iff}

abbrev timeout : Error
timeout = record { net_error = some true; text = "i/o timeout" }

timeout-answers :
    (default_answer (0, some timeout) ≡ (0, some timeout))
    × (inferring_answer (0, some timeout) ≡ (0, none))
unfolding default_answer inferring_answer is_fatal lasting
timeout-answers = (refl, refl)

default-inferring_iff_example :
    (default_answer (0, some timeout) ≡ (0, some timeout))
    × ((inferring_answer (0, some timeout) ≡ default_answer (0, some timeout)) ↔ IsFatal timeout)
default-inferring_iff_example = default-inferring_iff 0 (some timeout)
