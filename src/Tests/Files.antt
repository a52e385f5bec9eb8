-- ===== src/Tests/Files.antt =====
-- Examples of the file server and of the client's reading of its answers: "ann", on the socket 4,
-- sends a file to "bob", and "bob" fetches one that waits for him.
use chatroom.Base.{
  ◌≡◌, refl, ap, Text, text, eq_text, Bool, true, false, List, [], ◌∷◌, ◌++◌, Option, none, some,
  lookup, text_eq, nat_eq, arith, Returns, ◌>>=◌, ◌>>◌, decimal, if◌then◌else◌, ==_iff, for_each,
  find_text, starts_with, pure, ◌∙◌, inl,
}
use chatroom.Redis.Documented.{Kind, lists, View, contains}
use chatroom.Redis.Memory.{Memory, admits, empty_memory, memory}
use chatroom.Redis.Memory.Laws.{memory-Documented, memory-fits, memory-view}
use chatroom.RedisClient.Kinded.{Kinded}
use chatroom.RedisClient.Kinded.Files.{Scans, names_key}
use chatroom.RedisClient.Keys.{file_key, ◌+:+◌}
use chatroom.RedisClient.Groups.{group_title}
use chatroom.FileServer.State.{
  FtpServices, Ftp, FtpConnect, DataConn, Recv, Sent, new_connect, bytes_to, is_pasv, send_response,
}
use chatroom.FileServer.Data.{passive_reply, file_path}
use chatroom.FileServer.Session.{
  handle_command, process_input, new_command, has_command, contains_fd, cut_line,
}
use chatroom.FileServer.Reactor.{FtpWorker, attend, hand_io}
use chatroom.FileServer.Words.{transfer_line}
use chatroom.FileServer.Command.{is_space}
use chatroom.FileServer.Queue.{waiting, contents}
use chatroom.FileServer.Transfer.{Transferring}
use chatroom.FileServer.Upload.{upload-enqueues, upload_begins, upload_ends}
use chatroom.FileServer.Delivery.{upload-delivers}
use chatroom.FileServer.Download.{download-dequeues, download_begins, download_ends}
use chatroom.FileServer.Faults.{Transfer, second_transfer_undefined}
use chatroom.FileServer.Lines.{process_input-lines, handle_line, with_ends}
use chatroom.FileServer.Isolation.{Event, IsKeyed, serve, serve-IsKeyed}
use chatroom.FileServer.Keeps.{Answers}
use chatroom.FileClient.Passive.{open_passive_mode}
use chatroom.FileClient.Address.{dotted, open_passive_mode-passive_reply}
use chatroom.FileServer.Sockets.Sending.{concat}
use chatroom.Client.State.{Task}
use chatroom.FileClient.State.{FtpClient, FileServices, c_text}
use chatroom.FileClient.Transfer.{send_file, get_file}
use chatroom.FileClient.Upload.{IsAnswer, pasv, quits, upload_line, send_file-passive_reply}
use chatroom.FileClient.Download.{download_line, local_path, get_file-passive_reply}
use chatroom.Client.Names.{split_dash}
use chatroom.Client.Names.Splitting.{split_dash-group_title}
use chatroom.Tests.{ann, bob, club}

instance abbrev pub ftp_services : FtpServices Memory
ftp_services = record {
  redis = memory;
  scan_rounds = 1;
  seconds = λ n. n;
  random = λ n. 7;
  can_create = λ path. true;
  read_dir = λ path. none;
  local_ip = λ fd. (127, 0, 0, 1);
  port = λ fd. 40000;
  nonblocking = λ fd. true;
}

abbrev names : Text
names = names_key ann bob

abbrev kind_of : Text → Kind
kind_of k = lists

abbrev files : List Text → Memory
files paths = record empty_memory {
  held = λ k. if eq_text names k then some lists else none;
  items = λ k. if eq_text names k then paths else [];
}

admits_lists : (b : Bool) → admits (if b then some lists else none) lists ≡ true
admits_lists true = refl
admits_lists false = refl

files-Kinded : (paths : List Text) → Kinded memory-Documented kind_of (files paths)
files-Kinded paths = record {
  fit = λ k. memory-fits (files paths) lists k ∙ admits_lists (eq_text names k);
}

scans : Scans memory-Documented 1
scans = record {
  pages = λ cursor pattern d. 0;
  scan_reply = λ cursor pattern d. (0, [], refl, inl refl);
  scan_view = λ cursor pattern d. refl;
  scan_fits = λ cursor pattern d. refl;
  few = λ pattern d. omega arith;
}

abbrev path : Text
path = b'f' ∷ []

abbrev bytes : Text
bytes = b'h' ∷ b'i' ∷ []

abbrev data_fds : DataConn
data_fds = record { listen_pasv = 8; data_fd = 9 }

-- A connection on the socket 4 after PASV.
abbrev connect : FtpConnect
connect = record {
  control_fd = 4;
  data_conn = some data_fds;
  pasv = true;
  current_dir = [];
  comds = 4 ∷ [];
}

abbrev server_of : List Text → FtpConnect → Ftp Memory
server_of paths conn = record {
  db = files paths;
  disk = (path, bytes) ∷ [];
  conn = conn;
  responses = [];
  data_sent = [];
  closed = [];
  next_fd = 10;
  accepts = some 9 ∷ [];
  recvs = Recv.arrived bytes ∷ Recv.would_block ∷ Recv.arrived bytes ∷ Recv.closed ∷ [];
  sends = Sent.took 0 ∷ Sent.would_block ∷ Sent.took 0 ∷ Sent.took 0 ∷ Sent.took 5 ∷ [];
  readings = 0;
  draws = 0;
}

abbrev w : Ftp Memory
w = server_of (path ∷ []) connect

ready_ann : Transferring memory-Documented kind_of w data_fds path ann bob
unfolding is_space text contains_fd
ready_ann = record {
  kinded = files-Kinded (path ∷ []);
  connected = refl;
  passive = refl;
  command = refl;
  path_word = refl;
  from_word = refl;
  to_word = refl;
}

ready_bob : Transferring memory-Documented kind_of w data_fds path bob ann
unfolding is_space text contains_fd
ready_bob = record {
  kinded = files-Kinded (path ∷ []);
  connected = refl;
  passive = refl;
  command = refl;
  path_word = refl;
  from_word = refl;
  to_word = refl;
}

abbrev new_path : Text
new_path = file_path 0 ann 7

abbrev pieces : List Recv
pieces = Recv.arrived bytes ∷ Recv.would_block ∷ Recv.arrived bytes ∷ []

abbrev upload : Text
upload = transfer_line (text "STOR") path ann bob

abbrev view : Memory → View
view = memory-Documented.view

fresh : contains new_path ((view w.db).items names) ≡ false
unfolding file_path text eq_text file_key ◌+:+◌
fresh = ap (λ v. contains new_path (v.items names)) (memory-view (files (path ∷ [])))

one_waits : waiting memory-Documented ann bob w ≡ some bytes ∷ []
unfolding eq_text file_key ◌+:+◌ lookup
one_waits = ap (λ v. contents w.disk (v.items names)) (memory-view (files (path ∷ [])))

upload-enqueues_example : Returns (handle_command upload) w (λ _ w'.
    (waiting memory-Documented ann bob w'
      ≡ waiting memory-Documented ann bob w ++ some (bytes ++ bytes) ∷ [])
    × (w'.conn.data_conn ≡ none)
    × (w'.closed ≡ 9 ∷ 8 ∷ [])
    × (w'.responses ≡ (4, upload_begins) ∷ (4, upload_ends) ∷ []))
upload-enqueues_example =
    upload-enqueues memory-Documented kind_of w data_fds path ann bob ready_ann pieces [] refl tt
      refl refl fresh

download-dequeues_example :
    Returns (handle_command (transfer_line (text "RETR") path bob ann)) w (λ _ w'.
      (waiting memory-Documented ann bob w' ≡ [])
      × (bytes_to 9 w'.data_sent ≡ bytes_to 9 w.data_sent ++ bytes)
      × (w'.disk ≡ w.disk)
      × (w'.conn.data_conn ≡ none)
      × (w'.closed ≡ 9 ∷ 8 ∷ [])
      × (w'.responses ≡ (4, download_begins) ∷ (4, download_ends) ∷ []))
download-dequeues_example =
    download-dequeues memory-Documented kind_of w data_fds path bob ann ready_bob scans bytes []
      refl one_waits tt (omega arith)

second_transfer_undefined_example : (handle_command upload >>= λ _. handle_command upload) w ≡ none
unfolding is_space text contains_fd starts_with
second_transfer_undefined_example =
    second_transfer_undefined Transfer.upload path ann bob refl refl refl upload w refl refl refl
      refl

abbrev line : Text
line = b'N' ∷ b'O' ∷ []

abbrev half : Text
half = b'S' ∷ b'T' ∷ []

process_input-lines_example :
    process_input (with_ends (line ∷ line ∷ []) half) w
    ≡ (new_command >>= λ _. for_each (line ∷ line ∷ []) handle_line) w
unfolding cut_line text starts_with
process_input-lines_example = process_input-lines (line ∷ line ∷ []) half w (refl, (refl, tt)) refl

abbrev worker : FtpWorker Memory
worker = record {
  cli_fd = 4 ∷ 5 ∷ [];
  connections = (4, new_connect 4) ∷ (5, new_connect 5) ∷ [];
  ftp = w;
}

abbrev or_worker : Option (FtpWorker Memory) → FtpWorker Memory
or_worker none = worker
or_worker (some v) = v

keyed : IsKeyed worker
unfolding lookup
keyed fd c h = ground (arith, ==_iff 4 fd, ==_iff 5 fd)

-- The worker after a line without a meaning was read from the socket 4.
abbrev answered : FtpWorker Memory
answered = or_worker (serve (Event.readable 4 (some (line ++ text "\r\n"))) worker)

serve-IsKeyed_example : IsKeyed answered × Answers 4 worker.ftp.responses answered.ftp.responses
unfolding serve hand_io lookup process_input ◌>>=◌ new_command handle_command has_command
    contains_fd is_pasv send_response pure
serve-IsKeyed_example =
    serve-IsKeyed (Event.readable 4 (some (line ++ text "\r\n"))) worker answered keyed refl

open_passive_mode-passive_reply_example :
    open_passive_mode (passive_reply (127, 0, 0, 1) 40000) ≡ some (dotted (127, 0, 0, 1), 40000)
open_passive_mode-passive_reply_example =
    open_passive_mode-passive_reply (127, 0, 0, 1) 40000 (omega arith)

split_dash-group_title_example : split_dash (group_title club ann) ≡ (club, ann)
unfolding find_text starts_with text
split_dash-group_title_example = split_dash-group_title club ann refl (refl, refl) (refl, refl)

-- Where nothing waits yet, with "bob" on the socket 5.
abbrev fresh_server : Ftp Memory
fresh_server = server_of [] connect

abbrev connect_bob : FtpConnect
connect_bob = record {
  control_fd = 5;
  data_conn = some (record { listen_pasv = 10; data_fd = 11 });
  pasv = true;
  current_dir = [];
  comds = 5 ∷ [];
}

ready_sender : Transferring memory-Documented kind_of fresh_server data_fds path ann bob
unfolding is_space text contains_fd
ready_sender = record {
  kinded = files-Kinded [];
  connected = refl;
  passive = refl;
  command = refl;
  path_word = refl;
  from_word = refl;
  to_word = refl;
}

ready_receiver :
    Transferring memory-Documented kind_of
      (server_of [] connect_bob)
      (record { listen_pasv = 10; data_fd = 11 })
      path
      bob
      ann
unfolding is_space text contains_fd
ready_receiver = record {
  kinded = files-Kinded [];
  connected = refl;
  passive = refl;
  command = refl;
  path_word = refl;
  from_word = refl;
  to_word = refl;
}

none_waits : waiting memory-Documented ann bob fresh_server ≡ []
unfolding eq_text file_key ◌+:+◌ lookup
none_waits = ap (λ v. contents fresh_server.disk (v.items names)) (memory-view (files []))

upload-delivers_example :
    Returns
      ((handle_command upload >> attend connect_bob)
        >> handle_command (transfer_line (text "RETR") path bob ann))
      fresh_server
      (λ _ w'.
        (bytes_to 11 w'.data_sent ≡ bytes_to 11 fresh_server.data_sent ++ (bytes ++ bytes))
        × (waiting memory-Documented ann bob w' ≡ []))
upload-delivers_example =
    upload-delivers memory-Documented kind_of fresh_server data_fds path ann bob ready_sender
      connect_bob (record { listen_pasv = 10; data_fd = 11 }) path ready_receiver scans pieces []
      none_waits refl tt refl refl tt (omega arith)

abbrev task : Task
task = record { decide = []; from_name = ann; to_name = bob; path = path; file_name = path }

-- A client with the answers that it will get.
abbrev client_of : List (Option Text) → FtpClient
client_of answers = record {
  task = task;
  arr = [];
  link = none;
  disk = (path, bytes) ∷ [];
  said = [];
  pushed = [];
  screen = [];
  answers = answers;
  recvs = Recv.arrived bytes ∷ Recv.closed ∷ [];
  sends = true ∷ true ∷ [];
  readings = 0;
}

instance abbrev file_services : FileServices
file_services = record { local_time = λ n. []; directory = []; can_create = λ place. true }

address-IsAnswer : IsAnswer (passive_reply (127, 0, 0, 1) 40000)
unfolding c_text passive_reply text decimal
address-IsAnswer = record { plain = refl; short = refl }

abbrev uploading : FtpClient
uploading =
    client_of
      (some (passive_reply (127, 0, 0, 1) 40000) ∷ some upload_begins ∷ some upload_ends ∷ [])

abbrev downloading : FtpClient
downloading =
    client_of
      (some (passive_reply (127, 0, 0, 1) 40000) ∷ some download_begins ∷ some download_ends ∷ [])

send_file-passive_reply_example : Returns send_file uploading (λ _ w'.
    (w'.said ≡ pasv ∷ upload_line uploading (127, 0, 0, 1) 40000 bytes [] ∷ quits ∷ [])
    × (w'.link ≡ some (dotted (127, 0, 0, 1), 40000))
    × (concat w'.pushed ≡ bytes))
unfolding lookup eq_text
send_file-passive_reply_example =
    send_file-passive_reply uploading (127, 0, 0, 1) 40000 bytes [] refl address-IsAnswer
      (omega arith) refl (refl, (refl, tt)) (omega arith)

get_file-passive_reply_example : Returns get_file downloading (λ _ w'.
    (w'.said
      ≡ pasv
        ∷ download_line downloading (127, 0, 0, 1) 40000 [] (Recv.arrived bytes ∷ []) []
        ∷ quits
        ∷ [])
    × (w'.link ≡ some (dotted (127, 0, 0, 1), 40000))
    × (lookup (local_path downloading) w'.disk ≡ some (bytes ++ [])))
get_file-passive_reply_example =
    get_file-passive_reply downloading (127, 0, 0, 1) 40000 [] (Recv.arrived bytes ∷ []) [] refl
      address-IsAnswer (omega arith) refl refl tt
