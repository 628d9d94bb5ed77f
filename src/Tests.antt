-- ===== src/Tests.antt =====
-- Runs of the model at concrete inputs, and each theorem of the results at an input that meets its
-- hypotheses.
mod JidTests
mod XmlTests
mod XmppTests
mod StanzaTests
mod BaseTests
mod TaskTests
mod Base64Tests
mod QueueTests
mod RunnerTests
mod SaslTests
mod StringTests
mod RosterTests
