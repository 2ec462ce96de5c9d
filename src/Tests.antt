-- ===== src/Tests.antt =====
-- Each theorem that has hypotheses, applied to concrete inputs.
mod Line
mod Texts
mod Numbers
mod Sockets
mod Requests
mod Responses
mod Works
mod Turns
mod Hello
mod Lifecycles
mod Parsed
mod Files
mod Static
mod Shutdown
