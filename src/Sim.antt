-- ===== src/Sim.antt =====
-- A host in memory: the concrete instance of `Host` at which the tests run the model.
use iwtftpd.Base.{
  ℕ, suc, ◌-◌, Bool, true, false, List, [], ◌∷◌, ◌++◌, Option, none, some, length, ◌==◌,
  if◌then◌else◌, str_eq, take, drop, codes,
}
use iwtftpd.Host.{Host, FileKind, regular, directory, OpenMode, for_read, for_write}

-- An open file: its path, and what is left to read.
pub record Handle : Type 0 where
  pub path : List ℕ
  pub rest : List ℕ

-- `room` bounds what all writes may take; `memory` is how many allocations succeed.
pub record Sim : Type 0 where
  pub files : List (List ℕ × List ℕ)
  pub handles : List (ℕ × Handle)
  pub opened : ℕ
  pub closed : ℕ
  pub clock : ℕ
  pub room : ℕ
  pub memory : ℕ
  pub sent : List (List ℕ)

abbrev find_file : List ℕ → List (List ℕ × List ℕ) → Option (List ℕ)
find_file path [] = none
find_file path ((p, c) ∷ fs) = if str_eq p path then some c else find_file path fs

abbrev append_file : List ℕ → List ℕ → List (List ℕ × List ℕ) → List (List ℕ × List ℕ)
append_file path bytes [] = []
append_file path bytes ((p, c) ∷ fs) =
    if str_eq p path then (p, c ++ bytes) ∷ fs else (p, c) ∷ append_file path bytes fs

abbrev find_handle : ℕ → List (ℕ × Handle) → Option Handle
find_handle fp [] = none
find_handle fp ((k, x) ∷ hs) = if k == fp then some x else find_handle fp hs

abbrev set_handle : ℕ → Handle → List (ℕ × Handle) → List (ℕ × Handle)
set_handle fp x [] = []
set_handle fp x ((k, y) ∷ hs) = if k == fp then (k, x) ∷ hs else (k, y) ∷ set_handle fp x hs

abbrev sim_malloc : ℕ → Sim → Bool × Sim
sim_malloc n w = if w.memory == 0 then (false, w) else (true, record w { memory = w.memory - 1 })

abbrev sim_stat : List ℕ → Sim → Option FileKind
sim_stat path w =
    if str_eq path (codes "/")
    then some directory
    else elim (find_file path w.files) [ none ↦ none | some c ↦ some regular ]

abbrev open_handle : List ℕ → List ℕ → Sim → Option ℕ × Sim
open_handle path rest w = (
  some (suc w.opened),
  record w {
    handles = (suc w.opened, record { path = path; rest = rest }) ∷ w.handles;
    opened = suc w.opened;
  },
)

abbrev sim_fopen : List ℕ → OpenMode → Sim → Option ℕ × Sim
sim_fopen path for_read w = elim (find_file path w.files) [
  | none ↦ (none, w)
  | some c ↦ open_handle path c w
]
sim_fopen path for_write w = open_handle path [] (record w { files = (path, []) ∷ w.files })

abbrev sim_fread : ℕ → ℕ → Sim → List ℕ × Sim
sim_fread fp n w = elim (find_handle fp w.handles) [
  | none ↦ ([], w)
  | some x ↦ (
    take n x.rest,
    record w { handles = set_handle fp (record x { rest = drop n x.rest }) w.handles },
  )
]

abbrev sim_fwrite : ℕ → List ℕ → Sim → ℕ × Sim
sim_fwrite fp bytes w = elim (find_handle fp w.handles) [
  | none ↦ (0, w)
  | some x ↦ (
    length (take w.room bytes),
    record w {
      files = append_file x.path (take w.room bytes) w.files;
      room = w.room - length (take w.room bytes);
    },
  )
]

instance abbrev pub sim : Host Sim
sim = record {
  malloc = sim_malloc;
  realpath = λ p w. some p;
  stat = sim_stat;
  fopen = sim_fopen;
  fread = sim_fread;
  ferror = λ fp w. false;
  fwrite = sim_fwrite;
  fclose = λ fp w. (true, record w { closed = suc w.closed });
  time = λ w. w.clock;
  getsockname = λ s w. some 0;
  getnameinfo = λ a w. some (codes "10.0.0.1");
  family_of = λ a. 2;
  getaddrinfo = λ f ip s w. some 0;
  socket = λ a w. (some 9, w);
  setsockopt = λ s w. (true, w);
  bind = λ s a w. (true, w);
  close = λ s w. w;
  sendto = λ s m a w. (true, record w { sent = w.sent ++ (m ∷ []) });
}

-- A host with two files.
abbrev pub start : Sim
start = record {
  files = (codes "/d/a", codes "hello") ∷ (codes "/d/b", codes "x\ny") ∷ [];
  handles = [];
  opened = 0;
  closed = 0;
  clock = 100;
  room = 100000;
  memory = 1000;
  sent = [];
}
