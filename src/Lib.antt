-- ===== src/Lib.antt =====
-- A model of the Home Assistant integration for TP-Link Easy Smart switches.
--
-- The integration talks to a switch by its web pages. `TpLinkWebApi` (client/coreapi.py) keeps a
-- login session and reads JavaScript variables out of pages; `TpLinkApi` (client/tplink_api.py)
-- turns the variables into states (client/classes.py), tests requests against them, and writes
-- forms; `PortStatisticsRateCalculator` (client/statistics.py) turns packet counters into rates. A
-- coordinator (update_coordinator.py) polls one switch, caches what it answers and passes commands
-- on; services (services.py) find a coordinator by the address of its switch, and the
-- configuration flow (config_flow.py) makes the entries that coordinators are set up for.
-- All paths are below custom_components/tplink_easy_smart.
--
-- Base: names of the library, Boolean tests, lists, integers, bits, ascending lists that stand
--   for Python's sorted sets, and association lists that stand for its dictionaries.
-- Python: the values that `json5.loads` returns, `int(...)`, `bool(...)`, the exceptions, and
--   results that are a value or an exception. `int` of a text reads ASCII digits only.
-- Classes: client/classes.py.
-- Ports: `_decode_port_mask`, `_encode_port_mask`, `_unique_ports`, `_validate_ports`,
--   `_expand_trunk_ports` and `_ports_for_trunk` of client/tplink_api.py.
-- Statistics: client/statistics.py, over any type of floats; an integer too large for a float is
--   an `OverflowError`.
-- Core.Regex, Core.Variables: the regular expressions of client/coreapi.py as backtracking
--   matchers, and the functions from a page to a converted variable. A repetition runs on the
--   length of the text as fuel, which is enough since each round takes a character.
-- Core.Session: `TpLinkWebApi` as actions on a session: `_session is not None`,
--   `_session_injected`, `_is_initialized`, and the list of all that was done. The switch is any
--   function from that list and a request to a reply, a dropped connection or another failure.
-- Api: the operations of `TpLinkApi` on LAGs (Lag), VLANs (Vlan), the mirror (Mirror), QoS,
--   bandwidth and storm control (Limits), PoE (Poe), cables (Cable), device information and port
--   settings (Device) and the remaining settings and counters (Settings); Features is
--   client/utils.py, and Trace says what they send. A write returns the page, or nothing if the
--   switch closed the connection.
-- Discovery: the cipher, the requests and the answers of client/discovery.py. The loop over the
--   values of a payload runs on the payload's length as fuel, since each round takes four bytes
--   at least.
-- Coordinator: update_coordinator.py. State holds what a coordinator knows, Refresh the updates,
--   Commands and Configuration what it passes on to the API; `poll` is the one shape that the
--   updates of optional parts have. `monotonic()` may depend on all that was done. Home
--   Assistant's listeners are a counter. Learning and the files after it have the proofs.
-- Services: services.py, helpers.py and the setup of entries in __init__.py. Calls has the
--   dispatch on data that the schemas have accepted, Lifecycle what is kept in `hass.data` and in
--   the registry of services, which is an interface with the laws of adding and removing a name.
-- ConfigFlow: config_flow.py, from the user's input to an entry or a form with an error.
--
-- Parameters, with no law assumed: json5, `str()` of a value, the codecs, IPv4 addresses,
-- Unicode's word characters above ASCII, Home Assistant's `format_mac`, float arithmetic, and the
-- switch. A lock makes each call of `get` or `post` one step, so a call is one action here.
-- Addresses, timeouts, TLS and logging are not modelled. An unloading of platforms in a rollback
-- is taken to return. Left out so far: the sockets of discovery, the schemas of services, the
-- migration of entries, the forms of the configuration flow, and the entities, which are glue to
-- Home Assistant.
pub mod Base
pub mod Python
pub mod Classes
pub mod Ports
pub mod Statistics
pub mod Core
pub mod Api
pub mod Discovery
pub mod Coordinator
pub mod Services
pub mod ConfigFlow
