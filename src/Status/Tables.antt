-- ===== src/Status/Tables.antt =====
-- The tables of the four modules that print messages.
use iwtftpd.Base.{codes}
use iwtftpd.Status.{Messages}
use iwtftpd.Status.Tftp
use iwtftpd.Status.Datastore
use iwtftpd.Status.Log
use iwtftpd.Status.Main

abbrev pub tftp_messages : Messages
tftp_messages = record {
  prefix = codes "[iwtftp] ";
  statmsgs = Tftp.iwtftp_statmsgs;
  statvmsgs = Tftp.iwtftp_statvmsgs;
}

abbrev pub datastore_messages : Messages
datastore_messages = record {
  prefix = codes "[iwds] ";
  statmsgs = Datastore.iwds_statmsgs;
  statvmsgs = Datastore.iwds_statvmsgs;
}

abbrev pub log_messages : Messages
log_messages = record {
  prefix = codes "[iwlog] ";
  statmsgs = Log.iwlog_statmsgs;
  statvmsgs = Log.iwlog_statvmsgs;
}

abbrev pub main_messages : Messages
main_messages = record {
  prefix = codes "[main] ";
  statmsgs = Main.statmsgs;
  statvmsgs = Main.statvmsgs;
}
