-- ===== src/Lib.antt =====
-- A verification of sharpn, the lights of a house in a browser.
--
-- The program has two parts that this development is about. The Console API
-- (apps/console-api/src) is an HTTP service between browsers and a Gateway that speaks gRPC: a
-- request goes through the gates of its edge, a route reads it, the Gateway is asked, and what it
-- answers is written as a response. One subscription to the Gateway's events is shared by every
-- browser that has a stream open. The Console (apps/console/src) is what a browser runs: it sends
-- Commands, shows what it has sent until a read supersedes it, and reads again what it is told has
-- changed.
--
-- The service, in the order in which a request meets it:
--   Request   what is asked and answered, and the routes that apps/console-api/src/http/app.ts mounts
--             (`route_of`), with the body of a sign-in (apps/console-api/src/contract/login.ts).
--   Cookie    the session cookie of apps/console-api/src/http/session.ts, read from the Cookie header
--             (`cookie_named`) and written to Set-Cookie (`set_session_cookie`).
--   Session   the signed value of that cookie (apps/console-api/src/auth/session.ts: `mint`, `verify`,
--             `renew`).
--   Meter     apps/console-api/src/http/meter.ts: `spend` of a meter is one call of what `meterAtMost`
--             returns, with the map of all keys as its state.
--   Command   apps/console-api/src/contract/command.ts: `read_light_command` reads a body.
--   Edge      `handle`, one request through every gate of `consoleApi` and the routes of
--             apps/console-api/src/http: app.ts, session.ts, lights.ts and health.ts. Its state is the
--             `World`: the two meters and the Commands that were passed on to the Gateway. It calls
--             Cookie, Session, Meter, Command and Answer as the code does.
--   Adapter   apps/console-api/src/gateway/adapter.ts: what a call answers with (`ask`), and one
--             subscription from `subscribe` to its end.
--   SingleFlight  apps/console-api/src/gateway/single-flight.ts, which the adapter's reads go through.
--   Codec     apps/console-api/src/gateway/codec.ts and contract/acknowledgement.ts: Commands to
--             messages, and messages to Lights (Light), Acknowledgements and Notices. Gen holds the two
--             enums of apps/console-api/src/gen/hue/v1/common.ts that it reads the names of.
--   Wire      the binary form of the messages of apps/console-api/src/gen/hue/v1: the loop of a generated
--             `decode`, and a module for each message of common.ts (Wire.Common), lighting.ts
--             (Wire.Lighting), lighting_service.ts (Wire.Service) and event_service.ts (Wire.Events). A
--             module has the message as a record, with its enums as the numbers that they are on the
--             wire, its `encode`, and its `rows`: the cases of the `switch` in its `decode`, each with
--             the tag that it asks for, which says which case it is. Wire.Message is what they share.
--   Status    apps/console-api/src/gateway/status.ts: the code that a failed call is reported under,
--             by the catalogue of Errors (apps/console-api/src/contract/errors.ts).
--   Answer    apps/console-api/src/http/answer.ts: a result or a refusal as a response.
--
-- The events, from the Gateway to a browser:
--   Backoff   apps/console-api/src/events/backoff.ts: the waits before subscribing again.
--   Fanout    apps/console-api/src/events/fanout.ts: the shared subscription, its listeners and timers.
--             Each callback of the code is a function of its state, and `Step` has one constructor for
--             each of the things that may happen.
--   Events    apps/console-api/src/http/events.ts: the stream of one browser, whose flushes, beats,
--             Notices and end are functions of its state.
--
-- The process:
--   Config    apps/console-api/src/config.ts and version.ts: the settings of an environment, or what
--             stops the process from starting.
--   Secrets   what is read of the files of secrets, in apps/console-api/src/auth/password.ts,
--             auth/session.ts and gateway/credentials.ts.
--   Server    apps/console-api/src/server.ts: `stop`, over the states of Fanout, Adapter and Events.
--             The steps after it are those of these three, requests that come on connections kept alive,
--             are answered or open an event stream, connections that end, and the close of the server.
--
-- The Console:
--   Console.Pending  apps/console/src/pending: the Commands whose effect was not read back yet.
--   Console.Sending  apps/console/src/queries/useUpdateLight.ts: one PATCH in flight for the Light of a
--             hook, and the latest Command held behind it.
--   Console.Live     apps/console/src/events/LiveLightsProvider.tsx with
--             apps/console/src/queries/raceAwareInvalidate.ts and invalidateLight.ts.
--   Console.Api      apps/console/src/api: client.ts and apiError.ts, from a response to what a person
--             is told. Carried states what becomes of what Answer writes.
--   Console.EventStream  apps/console/src/events/eventStream.ts: what is heard of what Events writes, and
--             what Console.Live does about it.
--   Console.Temperature  apps/console/src/domain/colorTemperature.ts and the slider of
--             apps/console/src/components/ColorTemperatureSlider.tsx.
--   Console.Gamut, Console.Colour  apps/console/src/domain: gamutTriangle.ts, hsvToXy.ts and
--             colorPresets.ts, with the pickers of apps/console/src/components/ColorControl.tsx and
--             GamutTrianglePicker.tsx.
--   Console.Listing  apps/console/src/domain/sortLights.ts and the list of
--             apps/console/src/routes/LightListPage.tsx.
--   Console.Archetype  apps/console/src/domain: archetypeIcon.ts and archetypeLabel.ts, and the lists of
--             apps/console/src/api/types.ts.
--   Console.Shown  what a person is told, from apps/console/src/domain/acknowledgementMessage.ts and the
--             components that show it.
--
-- Prelude holds the names of the libraries and the lemmas on lists, texts and association lists
-- (Prelude.Maps) that the modules share. Tests runs the theorems on concrete inputs.
--
-- State and time. A closure's variables and a Map are fields of a record that each operation takes
-- and gives back. A clock, a random number and an id are arguments of the call that draws them; a
-- time is a whole number of milliseconds. Callbacks, timers and settling promises are the steps of a
-- relation, so a theorem over its runs holds of every order of them.
--
-- Bounds. Every function here is total by structural recursion, and only the loops of Wire spend fuel:
-- each round takes a byte at least, so one more than the bytes that there are is enough. Numbers are the
-- unbounded naturals and integers: times and counts of the program stay far below 2 ^ 53, where
-- JavaScript's are exact. A decimal number of a body is its sign, digits and number of places, as JSON
-- writes it, and is compared exactly.
--
-- Third-party code is a parameter: the HMAC and the encodings of node (Session), Express and its body
-- reader and URL (Edge; a path is as Express matches it, without the case of the fixed segments), zod (Command), the statuses that grpc-js exports (Status), the jitter
-- (Backoff), the reader and the writer of @bufbuild/protobuf (Wire), and the query cache, React and the
-- network of the Console. JavaScript's floating-point numbers are a parameter of Console.Gamut and
-- Console.Colour, with NaN, of which only their order is asked to be one, and the collation of the
-- browser's locale is one of Console.Listing.
--
-- Not modelled: the certificate, argon2, the OpenAPI document, the wire format of an event, and what the
-- Console's components draw, with their routes. A fault that Express answers with a bare 500, the lines
-- that are logged and the prose of the error catalogue are left out.
pub mod Prelude
pub mod Meter
pub mod Errors
pub mod Status
pub mod Session
pub mod Gen
pub mod Light
pub mod Command
pub mod Answer
pub mod Codec
pub mod Backoff
pub mod SingleFlight
pub mod Adapter
pub mod Fanout
pub mod Events
pub mod Server
pub mod Secrets
pub mod Config
pub mod Wire
pub mod Console
pub mod Cookie
pub mod Request
pub mod Edge
pub mod Tests
