-- ===== src/Logging/Pmsg.antt =====
-- The functions `pmsg` of src/iwtftpd.c, src/datastore.c and src/tftp.c.
use iwtftpd.Base.{ℕ, Bool, true, List, Option, none, some, length, ltb, if◌then◌else◌}
use iwtftpd.Status.{Messages, status_text, end_line}
use iwtftpd.Status.Tables.{tftp_messages, datastore_messages, main_messages}
use iwtftpd.Logging.{Alog, Effect, ok, bad_pointer, overrun, LogHost, iwlog_is_verbose}
use iwtftpd.Logging.File.{iwlog_print_msg}

module _ {W : Type 0} ⦃h : LogHost W⦄ where
  -- The end of the other `pmsg`: into the log file, if it is ready.
  unfoldable pub send_text : Bool → Alog → Option (List ℕ) → W → Effect (Alog × W)
  unfolding iwlog_print_msg
  send_text logready alog none w = ok (alog, w)
  send_text logready alog (some text) w =
      if logready
      then iwlog_print_msg alog text (length text) w
      else ok (alog, h.stderr (end_line text) w)

  -- `pmsg` of src/iwtftpd.c, src/datastore.c and src/tftp.c, each with its tables.
  unfoldable pub pmsg : Messages → Bool → Alog → ℕ → List (List ℕ) → W → Effect (Alog × W)
  unfolding iwlog_is_verbose send_text
  pmsg m logready alog n args w =
      let verbose : Effect (Alog × W) = elim (iwlog_is_verbose alog) [
        | ok flag ↦ send_text logready alog (status_text m flag n args) w
        | bad_pointer ↦ bad_pointer
        | overrun ↦ overrun
      ] in
      if ltb n 64 then send_text logready alog (status_text m true n args) w else verbose

  unfoldable pub tftp_pmsg : Bool → Alog → ℕ → List (List ℕ) → W → Effect (Alog × W)
  unfolding pmsg
  tftp_pmsg = pmsg tftp_messages

  unfoldable pub iwds_pmsg : Bool → Alog → ℕ → List (List ℕ) → W → Effect (Alog × W)
  unfolding pmsg
  iwds_pmsg = pmsg datastore_messages

  unfoldable pub main_pmsg : Bool → Alog → ℕ → List (List ℕ) → W → Effect (Alog × W)
  unfolding pmsg
  main_pmsg = pmsg main_messages
