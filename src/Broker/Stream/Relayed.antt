-- ===== src/Broker/Stream/Relayed.antt =====
-- broker.rs and server.rs: a request that is relayed, from the daemon that dials to the one that
-- serves.
use mux.Prelude.{some, String, none, some}
use mux.Frame.{Stream}
use mux.Frame as frame
use mux.Peer.{protocol_version, OpenRequest}
use mux.Manager.{Manager}
use mux.Broker.Links.{Links}

-- What is to arrive of a pane's request at the host that a token is for.
abbrev pub delivered : String → OpenRequest → OpenRequest
delivered token request = record {
  version = protocol_version;
  cols = request.cols;
  rows = request.rows;
  term = request.term;
  token = some token;
  target = none;
  mode = request.mode;
}
