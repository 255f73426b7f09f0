-- ===== src/Tests/Runtime.antt =====
-- Events, channels and encodings that the hypotheses of the transport fit: events that are always
-- signalled, and encodings for metadata of one text alone.
use slotbus.Base.{
  ℕ, ◌+◌, ◌*◌, ◌≡◌, refl, sym, ap, arith, List, [], ◌∷◌, ◌∙◌, Option, some, none, Text, true, put,
  ◌==◌,
}
use slotbus.Types.{RequestMeta, ResponseMeta}
use slotbus.Config.OsName.{linux}
use slotbus.Postcard.{Coded, coded, code_error, IsPostcard}
use slotbus.Os.{Opened}
use slotbus.Events.{Signals}
use slotbus.Region.Calm.{Quiet, Quiet-refl}
use slotbus.Transport.{Runtime}
use slotbus.Transport.Laws.{IsRuntime}
use slotbus.Tests.Machine.{machine, Mapping, Names, lookup, open_in, lookup_below, open_in_below}

abbrev pub signals : Signals machine
signals = record {
  Semaphore = ℕ;
  encode_utf16 = λ t. t;
  create_event = λ name s. (1, s);
  open_event = λ name s. (1, s);
  set_event = λ handle s. s;
  wait_for_single_object = λ handle ms s. (0, s);
  close_handle = λ handle s. s;
  sem_unlink = λ name s. s;
  sem_create = λ name s. (some 0, s);
  last_os_error = λ s. [];
  sem_open = λ name s. (some 0, s);
  sem_post = λ sem s. s;
  sem_close = λ sem s. s;
  clock_gettime = λ s. (5, 7);
  sem_timedwait = λ sem sec nsec s. (true, s);
  sem_trywait = λ sem s. (true, s);
  instant = λ s. s.now;
  sleep = λ ms s. record s { now = s.now + ms * 1000000 };
}

-- A text alone is encoded as it is, and with anything else beside it not at all.
abbrev path_alone :
    Text → Text → List (Text × Text) → Option Text → List (Text × Text) → Coded (List ℕ)
path_alone path [] [] none [] = coded path
path_alone path (c ∷ pattern) params query headers = code_error []
path_alone path [] (p ∷ params) query headers = code_error []
path_alone path [] [] (some q) headers = code_error []
path_alone path [] [] none (h ∷ headers) = code_error []

abbrev type_alone : Text → List (Text × Text) → Coded (List ℕ)
type_alone content_type [] = coded content_type
type_alone content_type (h ∷ headers) = code_error []

abbrev pub path_meta : Text → RequestMeta
path_meta path = record {
  path = path;
  route_pattern = [];
  path_params = [];
  query = none;
  headers = [];
}

abbrev pub type_meta : Text → ResponseMeta
type_meta content_type = record { content_type = content_type; headers = [] }

abbrev pub runtime : Runtime machine
runtime = record {
  target = linux;
  sys = signals;
  request_code = record {
    to_allocvec = λ m. path_alone m.path m.route_pattern m.path_params m.query m.headers;
    from_bytes = λ bytes. coded (path_meta bytes);
  };
  response_code = record {
    to_allocvec = λ m. type_alone m.content_type m.headers;
    from_bytes = λ bytes. coded (type_meta bytes);
  };
  Sender = ℕ;
  Receiver = ℕ;
  channel = λ s. ((s.channels, s.channels), record s { channels = s.channels + 1 });
  send = λ tx response s. record s { sent = put ◌==◌ tx (some response) s.sent };
  drop_sender = λ tx s. s;
  resolved = λ rx s. s.sent rx;
}

path_alone-decoded :
    (path pattern : Text) (params : List (Text × Text)) (query : Option Text)
    (headers : List (Text × Text)) (bytes : List ℕ)
    → path_alone path pattern params query headers ≡ coded bytes
    → path_meta bytes ≡ record {
      path = path;
      route_pattern = pattern;
      path_params = params;
      query = query;
      headers = headers;
    }
path_alone-decoded path [] [] none [] bytes e =
    let same : path ≡ bytes = ground arith in ap path_meta (sym same)
path_alone-decoded path (c ∷ pattern) params query headers bytes e = absurd (ground arith)
path_alone-decoded path [] (p ∷ params) query headers bytes e = absurd (ground arith)
path_alone-decoded path [] [] (some q) headers bytes e = absurd (ground arith)
path_alone-decoded path [] [] none (h ∷ headers) bytes e = absurd (ground arith)

type_alone-decoded :
    (content_type : Text) (headers : List (Text × Text)) (bytes : List ℕ)
    → type_alone content_type headers ≡ coded bytes
    → type_meta bytes ≡ record { content_type = content_type; headers = headers }
type_alone-decoded content_type [] bytes e =
    let same : content_type ≡ bytes = ground arith in ap type_meta (sym same)
type_alone-decoded content_type (h ∷ headers) bytes e = absurd (ground arith)

pub request_code-IsPostcard : IsPostcard runtime.request_code
request_code-IsPostcard a bytes e =
    ap coded (path_alone-decoded a.path a.route_pattern a.path_params a.query a.headers bytes e)

pub response_code-IsPostcard : IsPostcard runtime.response_code
response_code-IsPostcard a bytes e = ap coded (type_alone-decoded a.content_type a.headers bytes e)

open_in_same : (s : Names) (x : Option Mapping) → (open_in s x).1 ≡ s
open_in_same s none = refl
open_in_same s (some m) = refl

open_in_answer : (s s' : Names) (x : Option Mapping) → (open_in s' x).0 ≡ (open_in s x).0
open_in_answer s s' none = refl
open_in_answer s s' (some m) = refl

-- States with the same names open the same.
same_names-Quiet : (s s' : Names) → s'.taken ≡ s.taken → Quiet machine s s'
same_names-Quiet s s' same = record {
  mapped = λ p used. rw same used;
  names = λ name h e. (
    h,
    open_in_answer s s' (lookup name s'.taken)
        ∙ ap (λ taken. (open_in s (lookup name taken)).0) same
        ∙ e,
    refl,
    refl,
  );
}

pub runtime-IsRuntime : IsRuntime runtime
runtime-IsRuntime = record {
  open-Quiet = λ name s. rw (open_in_same s (lookup name s.taken)) (Quiet-refl s);
  open-drop = λ name s s' h p e used.
      let last : s ≡ s' =
        sym (open_in_same s (lookup name s.taken)) ∙ ap (λ (x : Opened Mapping × Names). x.1) e in
      rw (← last) used;
  drop-keeps = λ h s p ne used. used;
  open-maps =
      λ name s s' h. open_in_below name s s' h (lookup name s.taken) (lookup_below name s.taken);
  create_event-Quiet = λ name s. Quiet-refl s;
  open_event-Quiet = λ name s. Quiet-refl s;
  sem_open-Quiet = λ name s. Quiet-refl s;
  sem_unlink-Quiet = λ name s. Quiet-refl s;
  sem_create-Quiet = λ name s. Quiet-refl s;
  set_event-Quiet = λ handle s. Quiet-refl s;
  sem_post-Quiet = λ sem s. Quiet-refl s;
  channel-Quiet = λ s. same_names-Quiet s _ refl;
  drop_sender-Quiet = λ tx s. Quiet-refl s;
  send-Quiet = λ tx response s. same_names-Quiet s _ refl;
  send-resolved =
      λ s t response. let same : (s.channels == s.channels) ≡ true = ground arith in rw same;
}
