-- ===== src/Tftp/Proc/Request/Tests.antt =====
-- A download from its request on, on a host with one file.
use iwtftpd.Base.{
  ℕ, ◌≡◌, refl, true, false, List, [], ◌∷◌, ◌++◌, none, some, arith, codes, take, drop, length,
}
use iwtftpd.Host.{Host, regular}
use iwtftpd.Util.{join_path}
use iwtftpd.Datastore.{get_dsession, is_dsfile, iwds_isfile, found}
use iwtftpd.Tftp.Types.{netascii, SendInfo}
use iwtftpd.Tftp.Netascii.Encode.{encode}
use iwtftpd.Tftp.Transfer.Feed.{Feeds}
use iwtftpd.Tftp.Transfer.First.{OpensFile}
use iwtftpd.Tftp.Parse.Format.{request_msg}
use iwtftpd.Tftp.Sessions.{get_session}
use iwtftpd.Tftp.Proc.{Server, Sender}
use iwtftpd.Tftp.Proc.Request.{Connects, download, download_lem}

-- What is left to read of the file.
record Disk : Type 0 where
  left : List ℕ

abbrev contents : List ℕ
contents = codes "x\ny"

-- Opening a file for reading starts at its front.
instance abbrev disk : Host Disk
disk = record {
  malloc = λ n w. (true, w);
  realpath = λ p w. some p;
  stat = λ p w. some regular;
  fopen = λ p m w. (some 1, record { left = contents });
  fread = λ fp n w. (take n w.left, record { left = drop n w.left });
  ferror = λ fp w. false;
  fwrite = λ fp b w. (length b, w);
  fclose = λ fp w. (true, w);
  time = λ w. 100;
  getsockname = λ s w. some 0;
  getnameinfo = λ a w. some (codes "10.0.0.1");
  family_of = λ a. 2;
  getaddrinfo = λ f ip s w. some 0;
  socket = λ a w. (some 9, w);
  setsockopt = λ s w. (true, w);
  bind = λ s a w. (true, w);
  close = λ s w. w;
  sendto = λ s m a w. (true, w);
}

abbrev left_of : ℕ → Disk → List ℕ
left_of fp w = w.left

disk-Feeds : Feeds disk left_of
disk-Feeds = record {
  malloc_rest = λ fp n w. refl;
  fread_bytes = λ fp n w. refl;
  fread_rest = λ fp n w. refl;
  no_error = λ fp n w. refl;
}

disk-OpensFile : OpensFile disk left_of (codes "/d/a") 1 contents
disk-OpensFile = record { memory = λ n w. refl; opens = λ w. refl; at_start = λ w. refl }

disk-Connects : Connects disk 3 9
disk-Connects = record {
  memory = λ n w. refl;
  svaddr = 0;
  svip = codes "10.0.0.1";
  addr = 0;
  named = λ w. refl;
  resolved = λ w. refl;
  found_addr = λ w. refl;
  made = λ w. refl;
  set = λ w. refl;
  bound = λ w. refl;
}

abbrev idle : Server
idle = record {
  seshead = [];
  ads = record { dhead = []; dspath = codes "/d"; fchroot = false; fault = false };
}

abbrev client : Sender
client = record { sock = 3; clip = codes "10.0.0.2"; clport = 4000 }

abbrev quiet : SendInfo
quiet = record { ses = none; msg = [] }

abbrev boot : Disk
boot = record { left = [] }

file_is_there : (w : Disk) → (iwds_isfile idle.ads (codes "a") w).0 ≡ found
unfolding iwds_isfile is_dsfile join_path
file_is_there w = refl

download_lem_example :
    download 0 idle client (request_msg 1 (codes "a") (codes "netascii") ++ (7 ∷ [])) 13 quiet boot
    ≡ some (encode contents)
unfolding get_session get_dsession join_path encode
download_lem_example =
    download_lem left_of disk-Feeds idle client 9 disk-Connects (codes "a") netascii
      (omega arith, tt) (omega arith) (omega arith) refl file_is_there contents (codes "/d/a") 1 3
      disk-OpensFile refl refl (omega arith) 0 (7 ∷ []) 13 quiet boot (omega arith) (omega arith)
